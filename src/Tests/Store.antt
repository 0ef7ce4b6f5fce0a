-- ===== src/Tests/Store.antt =====
-- Containers that are stored in an empty registry, and their documents.
use minicontainer.Base.{◌≡◌, refl, true, none, some, [], ◌∷◌, arith, Bytes, codes}
use minicontainer.Network.{Publish}
use minicontainer.Mount.{Mount, bind}
use minicontainer.Cli.{default_options}
use minicontainer.Launch.{RunConfig}
use minicontainer.State.Registry.{World, config, missing, name_is_taken, published_port_is_taken}
use minicontainer.State.Reconcile.{written}
use minicontainer.State.Document.{Stamp, config_json}
use minicontainer.State.Load.{load_document}
use minicontainer.State.Stored.{restored, load_document-config_json}
use minicontainer.State.Save.{Calls, save_config, put}
use minicontainer.State.Exclusive.{IsExclusive}
use minicontainer.State.Saved.{save_config-IsExclusive}
use minicontainer.Tests.Json.{trees, trees-IsJson, str}

abbrev pub stamp : Stamp
stamp = record {
  now = 1700000000000000000;
  build_version = codes "1.0";
  git_commit = codes "unknown";
}

abbrev web_port : Publish
web_port = record { host_ipv4 = 0; host_port = 8080; container_port = 80; protocol = 6 }

abbrev other_port : Publish
other_port = record { host_ipv4 = 2130706433; host_port = 9090; container_port = 80; protocol = 6 }

abbrev data_mount : Mount
data_mount = record {
  type = bind;
  source = some (codes "/srv/data");
  target = codes "/data";
  size = 0;
  readonly = true;
}

abbrev container_of : Bytes → Bytes → Publish → RunConfig
container_of id name port = record {
  id = id;
  rootfs = codes "/var/lib/minicontainer/images/sha256/none/rootfs";
  hostname = name;
  ipv4_host = 170655747;
  options = record default_options {
    name = some name;
    publishes = port ∷ [];
    mounts = data_mount ∷ [];
    environment = codes "A=1" ∷ [];
  };
  command = codes "/bin/sh" ∷ [];
}

abbrev pub web_id : Bytes
web_id = codes "0123456789abcdef0123456789abcdef"

abbrev pub db_id : Bytes
db_id = codes "fedcba9876543210fedcba9876543210"

abbrev pub web : RunConfig
web = container_of web_id (codes "web") web_port

abbrev pub db : RunConfig
db = container_of db_id (codes "db") other_port

abbrev pub calls : Calls trees
calls = record {
  can_bind = λ p. true;
  mkdir_error = none;
  outcome = λ leaf. written;
  remove_works = true;
  text = str;
}

abbrev pub nobody : World trees
nobody = record {
  listing = missing;
  file = λ id leaf. none;
  state_dir_length = 22;
  start_time = λ pid. 0;
}

load_document-config_json_example :
    load_document trees (config_json trees stamp web (codes "alpine"))
    ≡ some (restored web (codes "alpine"))
load_document-config_json_example =
    load_document-config_json trees-IsJson stamp web (codes "alpine") (record {
      image_fits = omega arith;
      command = omega arith;
      user = omega arith;
      group = omega arith;
      ipv4 = omega arith;
      mask = omega arith;
      memory = omega arith;
      swap = omega arith;
      quota = omega arith;
      pids = omega arith;
      publishes = (
        record {
          address = omega arith;
          host = omega arith;
          container = omega arith;
          protocol = omega arith;
        },
        tt,
      );
      mounts = (record { size = omega arith; source = refl }, tt);
    })

nobody-IsExclusive : IsExclusive trees nobody
nobody-IsExclusive = record { compatible = λ i j li lj ne vi vj. elim li [ ] }

abbrev pub with_web : World trees
with_web = (save_config trees calls nobody stamp web (codes "alpine")).0

pub with_web-IsExclusive : IsExclusive trees with_web
with_web-IsExclusive =
    save_config-IsExclusive trees trees-IsJson calls nobody stamp web (codes "alpine") refl
      (
        record {
          address = omega arith;
          host = omega arith;
          container = omega arith;
          protocol = omega arith;
        },
        tt,
      )
      nobody-IsExclusive

web_saved : (save_config trees calls nobody stamp web (codes "alpine")).1 ≡ none
unfolding save_config name_is_taken published_port_is_taken
web_saved = refl

pub db_fresh : with_web.file db_id config ≡ none
unfolding save_config name_is_taken published_port_is_taken put
db_fresh = refl
