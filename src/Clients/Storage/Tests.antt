-- ===== src/Clients/Storage/Tests.antt =====
-- Runs and witnesses for storage.
use fuck.Base.{ℕ, ◌≡◌, ◌+◌, refl, true, false, [], ◌∷◌, none, some, codes}
use fuck.Clients.Storage.{raw_permissions_to_mode, register_storage, new_client}
use fuck.Clients.Storage.Laws.{Permissions}

abbrev private_dir : Permissions
private_dir = record {
  owner_r = true;
  owner_w = true;
  owner_x = true;
  group_r = true;
  group_w = false;
  group_x = true;
  other_r = false;
  other_w = false;
  other_x = false;
}

setuid : raw_permissions_to_mode (codes "urwxr-xr-x") ≡ 8388608 + 493
unfolding raw_permissions_to_mode
setuid = refl

twice : register_storage {B = ℕ} (codes "s3") 2 ((codes "s3", 1) ∷ []) ≡ none
unfolding register_storage
twice = refl

registered_type :
    new_client {B = ℕ} (codes "oss") ((codes "s3", 1) ∷ (codes "oss", 2) ∷ []) ≡ some 2
unfolding new_client
registered_type = refl

no_type : new_client {B = ℕ} [] ((codes "s3", 1) ∷ []) ≡ none
unfolding new_client
no_type = refl
