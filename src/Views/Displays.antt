-- ===== src/Views/Displays.antt =====
-- What a view of portfolios shows: `show_portfolios` of src/benchmark_common.c.
use chronos_prototype.Base.{◌≡◌, ◌≢◌, Bool, true, false, none, some, ℕ, List, [], ◌∷◌, ◌++◌, Text}
use chronos_prototype.Tables.{Tables, Portfolio}
use chronos_prototype.Db.{
  Table, BerkeleyDb, is_done, cursor_of, portfolio_of, is_no_more, open_cursor, get_key, next_key,
  pget_next,
}
use chronos_prototype.Views.{Shown, person, holding}

-- The entries of a scan of the portfolios: those of the account are shown, the others are not, and it
-- goes on until a call gives no entry.
pub data Entries {F : Type 0} (db : BerkeleyDb F) (s : Tables F) (account : Text)
    : List Shown → Type 0 where
  no_entry :
      (c : db.Cursor) (e : db.Env)
      → portfolio_of (db.call (pget_next c) e).0 ≡ none
      → Entries db s account []
  own_entry :
      {k : Text} {p : Portfolio} {xs : List Shown}
      → p.account_id ≡ account
      → s.portfolios k ≡ some p
      → Entries db s account xs
      → Entries db s account (holding k p ∷ xs)
  other_entry :
      {k : Text} {p : Portfolio} {xs : List Shown}
      → p.account_id ≢ account
      → s.portfolios k ≡ some p
      → Entries db s account xs
      → Entries db s account xs

-- No cursor could be opened for the scan.
abbrev pub NoScan : {F : Type 0} → BerkeleyDb F → Type 0
NoScan db =
    (t : db.Txn) × (e : db.Env) × (cursor_of (db.call (open_cursor Table.portfolios_sec t) e).0
      ≡ none)

-- An account: its person, and its portfolios, unless only users are wanted or the scan did not start.
pub data OfAccount {F : Type 0} (db : BerkeleyDb F) (s : Tables F) (only_users : Bool)
    (account : Text) : List Shown → Type 0 where
  user_alone : only_users ≡ true → OfAccount db s only_users account (person account ∷ [])
  user_lost :
      only_users ≡ false → NoScan db → OfAccount db s only_users account (person account ∷ [])
  user_with :
      {xs : List Shown}
      → only_users ≡ false
      → Entries db s account xs
      → OfAccount db s only_users account (person account ∷ xs)

-- The accounts of a scan of the persons, until a call says that there are no more.
pub data Accounts {F : Type 0} (db : BerkeleyDb F) (s : Tables F) (only_users : Bool)
    : List Shown → Type 0 where
  no_account :
      (c : db.Cursor) (e : db.Env)
      → is_no_more (db.call (next_key c) e).0 ≡ true
      → Accounts db s only_users []
  an_account :
      {account : Text} {xs ys : List Shown}
      → s.personal account ≡ true
      → OfAccount db s only_users account xs
      → Accounts db s only_users ys
      → Accounts db s only_users (xs ++ ys)

-- What is shown on a request: for the empty account all persons; for another one itself, or nothing
-- where a call did not find it.
pub data Displayed {F : Type 0} (db : BerkeleyDb F) (s : Tables F) (only_users : Bool)
    : Text → List Shown → Type 0 where
  everyone : {xs : List Shown} → Accounts db s only_users xs → Displayed db s only_users [] xs
  somebody :
      {k : ℕ} {ks : Text} {xs : List Shown}
      → s.personal (k ∷ ks) ≡ true
      → OfAccount db s only_users (k ∷ ks) xs
      → Displayed db s only_users (k ∷ ks) xs
  nobody :
      {k : ℕ} {ks : Text} (c : db.Cursor) (e : db.Env)
      → is_done (db.call (get_key c (k ∷ ks)) e).0 ≡ false
      → Displayed db s only_users (k ∷ ks) []
