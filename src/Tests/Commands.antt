-- ===== src/Tests/Commands.antt =====
-- The commands create and rm on a small registry.
use minicontainer.Base.{◌≡◌, refl, Bool, true, none, some, [], ◌∷◌, arith, Bytes, codes, ◌>>=◌}
use minicontainer.Launch.{RunConfig}
use minicontainer.State.Registry.{
  World, config, ok, read, resolve, allocate_ip, name_is_taken, published_port_is_taken,
}
use minicontainer.State.Reconcile.{written, reconcile, stale}
use minicontainer.State.Identity.{get_status}
use minicontainer.State.Document.{config_json, image_digest}
use minicontainer.State.Load.{load_document}
use minicontainer.State.Stored.{restored}
use minicontainer.State.Save.{Calls, save_config, mark_created, remove, put}
use minicontainer.State.Exclusive.{IsExclusive}
use minicontainer.Cli.Commands.{System, container_lock, rm, rm_arguments, rm_running, rm_found}
use minicontainer.Cli.Create.{register, register_calls, save_call}
use minicontainer.Cli.Registered.{register-IsExclusive}
use minicontainer.Cli.Loaded.{register-load_document}
use minicontainer.Cli.Removed.{IsRemoval, rm-IsRemoval}
use minicontainer.Tests.Json.{trees, trees-IsJson, str, member, empty, member_of}
use minicontainer.Tests.Store.{
  stamp, nobody, db, db_id, calls, with_web, with_web-IsExclusive, db_fresh,
}

-- Here the text of mc_state_mark_created is read as the one field that is looked at.
abbrev created_calls : Calls trees
created_calls = record calls { text = λ s. member (codes "status") (str (codes "created")) empty }

abbrev system : System trees
system = record {
  is_root = true;
  calls = created_calls;
  takes_registry = true;
  takes_registry_again = true;
  takes_container = true;
  reconciled = λ id. written;
  runtime_dir_length = 18;
  reply = λ number id. none;
  poll = λ attempt. nobody;
  launch = λ c. ok 0;
}

register-IsExclusive_example :
    IsExclusive trees (register trees system stamp (codes "alpine") true with_web db).0
register-IsExclusive_example =
    register-IsExclusive trees trees-IsJson system stamp (codes "alpine") true with_web db db_fresh
      (
        record {
          address = omega arith;
          host = omega arith;
          container = omega arith;
          protocol = omega arith;
        },
        tt,
      )
      with_web-IsExclusive

abbrev stored : RunConfig
stored = record db { ipv4_host = 0x0a2c0002 }

abbrev with_db : World trees
with_db = (register trees system stamp (codes "alpine") true nobody db).0

db_registered : register trees system stamp (codes "alpine") true nobody db ≡ (with_db, ok stored)
unfolding register register_calls container_lock save_call save_config mark_created reconcile
    name_is_taken published_port_is_taken allocate_ip put
db_registered = refl

register-load_document_example :
    (db_id ≡ db_id)
    × (db.options ≡ db.options)
    × ((read trees with_db db_id config >>= load_document trees)
        ≡ some (restored stored (codes "alpine")))
register-load_document_example =
    register-load_document trees trees-IsJson system stamp (codes "alpine") true nobody db
      db_registered
      (record {
        image_fits = omega arith;
        command = omega arith;
        user = omega arith;
        group = omega arith;
        ipv4 = omega arith;
        mask = omega arith;
        memory = omega arith;
        swap = omega arith;
        quota = omega arith;
        pids = omega arith;
        publishes = (
          record {
            address = omega arith;
            host = omega arith;
            container = omega arith;
            protocol = omega arith;
          },
          tt,
        );
        mounts = (record { size = omega arith; source = refl }, tt);
      })

abbrev without_db : World trees
without_db = (rm trees system with_db (codes "db" ∷ [])).0

db_removed : rm trees system with_db (codes "db" ∷ []) ≡ (without_db, ok db_id)
unfolding rm rm_found rm_running register register_calls container_lock save_call save_config
    mark_created reconcile stale name_is_taken published_port_is_taken allocate_ip resolve
    get_status remove put member_of config_json image_digest
db_removed = refl

rm-IsRemoval_example :
    (force : Bool) × (reference : Bytes) × (rm_arguments (codes "db" ∷ [])
      ≡ some (force, reference))
    × IsRemoval trees system with_db force reference without_db db_id
rm-IsRemoval_example = rm-IsRemoval trees system with_db (codes "db" ∷ []) db_removed
