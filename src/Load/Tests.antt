-- ===== src/Load/Tests.antt =====
-- The theorems about the initial load, at a table of accounts.
use chronos_prototype.Base.{
  ℕ, ◌≡◌, ◌≢◌, ◌<◌, refl, arith, true, false, Bool, Option, none, some, List, [], ◌∷◌, length, All,
  all_nil, all_cons, Text, text_eq,
}
use chronos_prototype.Db.{ok}
use chronos_prototype.Load.{
  Catalog, personal, stocks, read_line, load_database, size_of, same, load_lines, insert,
}
use chronos_prototype.Load.Scan.{store, sscanf, scan_set, c_string}
use chronos_prototype.Load.Scan.Fields.{Holds, line}
use chronos_prototype.Load.Rows.{
  Columns, AreColumns, IsColumn, first_field, other_fields, read_line-Holds,
}
use chronos_prototype.Load.Example.{
  Tables, is_free, put_row, tables_db, machine, no_records, company_list,
}
use chronos_prototype.Load.Loaded.{write, Laws, Loaded, load_database-Loaded}
use chronos_prototype.Load.Distinct.{IsStored, DistinctKeys, load_database-IsStored}

put_row-committed :
    (t : Catalog) (k : Text) (row : List ℕ) (keep : Bool) (e : Tables)
    → (put_row t k row keep e).1.committed ≡ e.committed
put_row-committed t k row false e = refl
put_row-committed t k row true e = ground arith

free_of : (o : Option (List ℕ)) → is_free o ≡ true → o ≡ none
free_of none h = refl
free_of (some row) h = ground arith

put_row-written :
    (t : Catalog) (k : Text) (row : List ℕ) (keep : Bool) (e : Tables)
    → (put_row t k row keep e).0 ≡ true
    → ((put_row t k row keep e).1.working ≡ write t k row e.working)
      × (keep ≡ true → e.working t k ≡ none)
put_row-written t k row false e h = (refl, λ lack. absurd (ground arith))
put_row-written t k row true e h = written (e.working t k) refl
  where
    written :
        (o : Option (List ℕ))
        → e.working t k ≡ o
        → ((put_row t k row true e).1.working ≡ write t k row e.working)
          × (true ≡ true → e.working t k ≡ none)
    written none q = (rw q refl, λ lack. q)
    written (some old) q = absurd (ground (arith, q, h))

abbrev tables_laws : Laws tables_db
tables_laws = record {
  committed = λ e. e.committed;
  seen = λ x e. e.working;
  committed_begin = λ e. refl;
  seen_begin = λ e x h. refl;
  committed_put = λ t x k row keep e. put_row-committed t k row keep e;
  seen_put = λ t x k row keep e h. put_row-written t k row keep e h;
  committed_commit = λ x e. refl;
  committed_abort = λ x e. refl;
}

-- "7#A#B#C#D#E#F#G\n"
abbrev columns : Columns
columns = record {
  account_id = 55 ∷ [];
  last_name = 65 ∷ [];
  first_name = 66 ∷ [];
  address = 67 ∷ [];
  city = 68 ∷ [];
  state = 69 ∷ [];
  country = 70 ∷ [];
  phone = 71 ∷ [];
}

letter-IsColumn : (n c x : ℕ) → 1 < n → x ≢ c → x ≢ 0 → IsColumn n c (x ∷ [])
letter-IsColumn n c x h g z = record {
  full = omega arith;
  short = omega (arith, h);
  plain = all_cons g all_nil;
  no_nul = all_cons z all_nil;
}

columns-AreColumns : AreColumns columns
columns-AreColumns = record {
  account_id = letter-IsColumn 10 35 55 (omega arith) (omega arith) (omega arith);
  last_name = letter-IsColumn 128 35 65 (omega arith) (omega arith) (omega arith);
  first_name = letter-IsColumn 128 35 66 (omega arith) (omega arith) (omega arith);
  address = letter-IsColumn 128 35 67 (omega arith) (omega arith) (omega arith);
  city = letter-IsColumn 128 35 68 (omega arith) (omega arith) (omega arith);
  state = letter-IsColumn 128 35 69 (omega arith) (omega arith) (omega arith);
  country = letter-IsColumn 128 35 70 (omega arith) (omega arith) (omega arith);
  phone = letter-IsColumn 16 10 71 (omega arith) (omega arith) (omega arith);
}

read_line-Holds_example :
    (row : List ℕ) × (read_line machine personal (line (first_field columns) (other_fields columns))
      ≡ some (55 ∷ [], row))
    × (length row ≡ size_of personal)
    × All (Holds row) (first_field columns ∷ other_fields columns)
read_line-Holds_example = read_line-Holds machine columns columns-AreColumns

load_stocks : (load_database tables_db machine stocks true (some company_list) no_records).0 ≡ ok 2
unfolding load_database load_lines insert read_line store sscanf scan_set c_string text_eq
load_stocks = refl

load_database-IsStored_example :
    let s' =
      (load_database tables_db machine stocks true (some company_list) no_records).1.committed in
    (2 ≡ length company_list)
    × All (IsStored machine stocks s') company_list
    × DistinctKeys machine stocks company_list
    × ((k : Text) (row : List ℕ) → none ≡ some row → s' stocks k ≡ some row)
    × ((t' : Catalog) (k : Text) → same t' stocks ≡ false → s' t' k ≡ none)
load_database-IsStored_example =
    load_database-IsStored tables_laws machine stocks company_list no_records 2 refl load_stocks

load_database-Loaded_example :
    Loaded tables_laws machine stocks company_list no_records.committed 0
      (load_database tables_db machine stocks true (some company_list) no_records)
load_database-Loaded_example =
    load_database-Loaded tables_laws machine stocks company_list no_records
