-- ===== src/Tests/Image.antt =====
-- The import of an archive of three entries.
use minicontainer.Base.{
  ℕ, zero, suc, ◌≡◌, refl, true, Option, none, some, List, [], ◌∷◌, Bytes, codes, All,
}
use minicontainer.Validate.Name.{valid_name}
use minicontainer.Validate.Path.{safe_archive_path, link_stays_beneath}
use minicontainer.State.Registry.{ok, path_max}
use minicontainer.State.Reconcile.{written}
use minicontainer.Image.Entry.{
  pos, FileType, regular, directory, symbolic_link, Entry, validate_entry, extract_loop, Extraction,
  extract_archive,
}
use minicontainer.Image.Safe.{IsSafe, extract_archive-IsSafe}
use minicontainer.Image.Store.{
  Images, Import, archive_digest, prepare_image, fill_staging, store_image, import_image,
  resolve_image,
}
use minicontainer.Image.Consistent.{IsConsistent}
use minicontainer.Image.Published.{import_image-IsConsistent}
use minicontainer.Image.Found.{resolve_image-import_image}

abbrev entry_of : Bytes → Option Bytes → FileType → Entry
entry_of path link type = record {
  pathname = some path;
  symlink = link;
  hardlink = none;
  type = type;
  permissions = 493;
  uid = pos 0;
  gid = pos 100;
}

abbrev extraction : Extraction
extraction = record {
  initialises = true;
  opens = true;
  returns = true;
  archive = record {
    entries =
        (entry_of (codes "./") none directory, true)
        ∷ (entry_of (codes "./bin") none directory, true)
        ∷ (entry_of (codes "bin/sh") (some (codes "busybox")) symbolic_link, true)
        ∷ [];
    complete = true;
  };
}

abbrev two_files : List Entry
two_files =
    (record (entry_of (codes "bin/sh") (some (codes "busybox")) symbolic_link) {
      uid = pos 100000;
      gid = pos 100100;
    })
    ∷ (record (entry_of (codes "bin") none directory) { uid = pos 100000; gid = pos 100100 })
    ∷ []

extracted : extract_archive 100000 100000 extraction ≡ (two_files, none)
unfolding extract_archive extract_loop validate_entry safe_archive_path link_stays_beneath
extracted = refl

extract_archive-IsSafe_example :
    All (IsSafe 100000 100000) (extract_archive 100000 100000 extraction).0
extract_archive-IsSafe_example = extract_archive-IsSafe 100000 100000 extraction

-- A path that climbs out of the image ends the extraction.
refused :
    extract_archive 100000 100000 (record extraction {
      archive = record {
        entries = (entry_of (codes "../etc/passwd") none regular, true) ∷ [];
        complete = true;
      };
    })
    ≡ ([], some 2)
unfolding extract_archive extract_loop validate_entry safe_archive_path
refused = refl

abbrev zeros : ℕ → Bytes
zeros zero = []
zeros (suc n) = 0 ∷ zeros n

abbrev calls : Import
calls = record {
  is_regular = true;
  sha256 = ok (zeros 32);
  ids = ok (100000, 100000);
  mkdir_error = none;
  pid = codes "4711";
  staging_error = none;
  chowns = true;
  extraction = extraction;
  marker_outcome = written;
  publishes = true;
  name_outcome = written;
}

abbrev no_images : Images
no_images = record { directory = λ key. none; record_of = λ name. none }

abbrev state_dir : Bytes
state_dir = codes "/var/lib/minicontainer"

no_images-IsConsistent : {past : Extraction → Type 0} → IsConsistent past no_images
no_images-IsConsistent {past} = record {
  checked = λ key image e. cc;
  recorded = λ name content e. cc;
}

import_image-IsConsistent_example :
    IsConsistent (λ e. e ≡ extraction) (import_image no_images state_dir (codes "alpine") calls).0
import_image-IsConsistent_example =
    import_image-IsConsistent (λ e. e ≡ extraction) no_images no_images-IsConsistent state_dir
      (codes "alpine") calls refl

abbrev with_alpine : Images
with_alpine = (import_image no_images state_dir (codes "alpine") calls).0

abbrev alpine_rootfs : Bytes
alpine_rootfs =
    codes
      "/var/lib/minicontainer/images/sha256/0000000000000000000000000000000000000000000000000000000000000000/rootfs"

imported : import_image no_images state_dir (codes "alpine") calls ≡ (with_alpine, ok alpine_rootfs)
unfolding import_image archive_digest store_image prepare_image fill_staging extract_archive
    extract_loop validate_entry safe_archive_path link_stays_beneath valid_name
imported = refl

resolve_image-import_image_example :
    resolve_image with_alpine state_dir true (codes "alpine") path_max ≡ ok alpine_rootfs
resolve_image-import_image_example =
    resolve_image-import_image no_images no_images-IsConsistent state_dir (codes "alpine") calls
      with_alpine alpine_rootfs imported
