-- ===== src/Requester/Cleanup.antt =====
-- Requester.Cleanup of pkg/oget/requester.go: the calls that it makes, whose errors it drops.
use oget.Prelude.{List, [], ◌∷◌, ◌++◌}
use oget.Prelude.Text.{Bytes, codes}
use oget.Task.{StorageKind}
use oget.Url.{Library}
use oget.FileName.{target_name, get_state_file_name}
use oget.Requester.{Requester}

pub data CleanupCall : Type 0 where
  sync_storage close_storage : StorageKind → CleanupCall
  remove_file : Bytes → CleanupCall

close_storages : List StorageKind → List CleanupCall
close_storages [] = []
close_storages (s ∷ ss) = sync_storage s ∷ close_storage s ∷ close_storages ss

-- Cleanup, with the handlers in `storages`
unfoldable pub cleanup : Library → Requester → List StorageKind → List CleanupCall
unfolding close_storages target_name get_state_file_name
cleanup lib r storages =
    let name = target_name lib r.output_dir r.resource in
    let bitset_file_name =
      lib.join (lib.dir name) (codes "." ++ lib.base name ++ codes ".oget.bits") in
    close_storages storages
    ++ remove_file (get_state_file_name lib name) ∷ remove_file bitset_file_name ∷ []
