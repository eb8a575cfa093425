-- ===== src/AdminAuth/Store.antt =====
-- src/adminauth/store.go, `Store`: the administrator's name and password hash, in memory and on disk.
use business2api.Base.{ℕ, Bool, not, ◌&&◌, Option, none, some, ltb, if◌then◌else◌, null}
use business2api.Text.{Text, codes, eqb, trim_space}

pub record CredentialRecord : Type 0 where
  pub version : ℕ
  pub username : Text
  pub password_hash : Text
  pub updated_at : ℕ

-- The content of the file: nothing, a content that does not parse, or a record.
pub data Stored : Type 0 where
  absent unreadable broken : Stored
  holds : CredentialRecord → Stored

pub record Store : Type 0 where
  pub cached : CredentialRecord
  pub disk : Stored

pub data StoreError : Type 0 where
  too_short no_hash not_saved cannot_read : StoreError

-- bcrypt, as it is called: a hash of a password, which can fail, and the comparison; and the number
-- of bytes of a string.
pub record Bcrypt : Type 0 where
  pub generate : Text → Option Text
  pub matches : Text → Text → Bool
  pub byte_length : Text → ℕ

module _ (lib : Bcrypt) where
  unfoldable pub verify : Text → Text → Store → Bool
  verify username password store =
      eqb (trim_space username) store.cached.username
      && lib.matches store.cached.password_hash password

  -- `ChangePassword`; `saves` says whether the file can be written.
  unfoldable pub store_password : Bool → ℕ → Text → Store → Store × Option StoreError
  store_password saves now hash store =
      let rec : CredentialRecord = record store.cached { password_hash = hash; updated_at = now } in
      if saves
      then (record { cached = rec; disk = holds rec }, none)
      else (record store { cached = rec }, some not_saved)

  unfoldable pub change_password : Bool → ℕ → Text → Store → Store × Option StoreError
  unfolding store_password
  change_password saves now password store =
      let new = trim_space password in
      if ltb (lib.byte_length new) 6 then (store, some too_short) else elim (lib.generate new) [
        | none ↦ (store, some no_hash)
        | some hash ↦ store_password saves now hash store
      ]

  -- `initDefaultRecord`: the record is kept only when it could be saved.
  unfoldable pub init_default_record : Bool → ℕ → Store → Store × Option StoreError
  init_default_record saves now store = elim (lib.generate (codes "admin123")) [
    | none ↦ (store, some no_hash)
    | some hash ↦
        let rec : CredentialRecord = record {
          version = 1;
          username = codes "admin";
          password_hash = hash;
          updated_at = now;
        } in
        if saves then (record { cached = rec; disk = holds rec }, none) else (store, some not_saved)
  ]

  unfoldable pub is_usable : CredentialRecord → Bool
  is_usable rec = not (null (trim_space rec.username)) && not (null (trim_space rec.password_hash))

  -- A file that cannot be used is set aside under another name.
  unfoldable pub set_aside : Bool → Store → Store
  set_aside renames store = if renames then record store { disk = absent } else store

  -- `loadOrInit`.
  unfoldable pub load_or_init : Bool → Bool → ℕ → Store → Store × Option StoreError
  unfolding init_default_record is_usable set_aside
  load_or_init renames saves now store = elim store.disk [
    | absent ↦ init_default_record saves now store
    | unreadable ↦ (store, some cannot_read)
    | broken ↦ init_default_record saves now (set_aside renames store)
    | holds rec ↦
        if is_usable rec
        then (record store { cached = rec }, none)
        else init_default_record saves now (set_aside renames store)
  ]
