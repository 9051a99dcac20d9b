-- ===== src/Load/Rows.antt =====
-- The rows of well-formed lines: what `read_line` makes of the lines of accounts.txt.
use chronos_prototype.Base.{
  ℕ, ◌+◌, ◌≤◌, ◌<◌, ◌≡◌, ◌≢◌, inl, sym, subst, ap, ◌∙◌, some, List, [], ◌∷◌, length, replicate,
  length-replicate, arith, All, All-head, all_nil, all_cons, Text,
}
use chronos_prototype.Load.{Machine, personal, size_of, read_line}
use chronos_prototype.Load.Scan.{◌>>=◌, c_string}
use chronos_prototype.Load.Scan.Fields.{
  Field, IsScanned, AreScanned, Fits, Apart, AllApart, Holds, line, sscanf-Holds,
}

-- The columns of a line of accounts.txt.
pub record Columns : Type 0 where
  pub account_id : Text
  pub last_name : Text
  pub first_name : Text
  pub address : Text
  pub city : Text
  pub state : Text
  pub country : Text
  pub phone : Text

-- Where `sscanf` puts them: `address_2`, at 394, and `email`, at 922, are not on the line.
abbrev pub first_field : Columns → Field
first_field c = record { width = 10; offset = 0; content = c.account_id }

abbrev pub other_fields : Columns → List Field
other_fields c =
    record { width = 128; offset = 10; content = c.last_name }
    ∷ record { width = 128; offset = 138; content = c.first_name }
    ∷ record { width = 128; offset = 266; content = c.address }
    ∷ record { width = 128; offset = 522; content = c.city }
    ∷ record { width = 128; offset = 650; content = c.state }
    ∷ record { width = 128; offset = 778; content = c.country }
    ∷ record { width = 16; offset = 906; content = c.phone }
    ∷ []

-- A text of at least one and less than `n` characters, with no NUL and no `c`.
pub record IsColumn (n c : ℕ) (t : Text) : Type 0 where
  pub full : 0 < length t
  pub short : length t < n
  pub plain : All (λ x. x ≢ c) t
  pub no_nul : All (λ x. x ≢ 0) t

-- Each column fits its array: ID_SZ is 10, NAME_SZ is 128, PHONE_SZ is 16.
pub record AreColumns (c : Columns) : Type 0 where
  pub account_id : IsColumn 10 35 c.account_id
  pub last_name : IsColumn 128 35 c.last_name
  pub first_name : IsColumn 128 35 c.first_name
  pub address : IsColumn 128 35 c.address
  pub city : IsColumn 128 35 c.city
  pub state : IsColumn 128 35 c.state
  pub country : IsColumn 128 35 c.country
  pub phone : IsColumn 16 10 c.phone

scanned :
    (n w o c : ℕ) (t : Text)
    → n ≤ w
    → IsColumn n c t
    → IsScanned c (record { width = w; offset = o; content = t })
scanned n w o c t h i = record { full = i.full; short = omega (arith, i.short); plain = i.plain }

fits :
    (n w o c size : ℕ) (t : Text)
    → o + n ≤ size
    → IsColumn n c t
    → Fits size (record { width = w; offset = o; content = t })
fits n w o c size t h i = (i.no_nul, omega (arith, i.short))

Columns-AreScanned : (c : Columns) → AreColumns c → AreScanned (first_field c) (other_fields c)
Columns-AreScanned c a = (
  scanned 10 10 0 35 c.account_id (omega arith) a.account_id,
  (
    scanned 128 128 10 35 c.last_name (omega arith) a.last_name,
    (
      scanned 128 128 138 35 c.first_name (omega arith) a.first_name,
      (
        scanned 128 128 266 35 c.address (omega arith) a.address,
        (
          scanned 128 128 522 35 c.city (omega arith) a.city,
          (
            scanned 128 128 650 35 c.state (omega arith) a.state,
            (
              scanned 128 128 778 35 c.country (omega arith) a.country,
              scanned 16 16 906 10 c.phone (omega arith) a.phone,
            ),
          ),
        ),
      ),
    ),
  ),
)

Columns-Fits : (c : Columns) → AreColumns c → All (Fits 1122) (first_field c ∷ other_fields c)
Columns-Fits c a = all_cons (fits 10 10 0 35 1122 c.account_id (omega arith) a.account_id) (
    all_cons (fits 128 128 10 35 1122 c.last_name (omega arith) a.last_name) (
      all_cons (fits 128 128 138 35 1122 c.first_name (omega arith) a.first_name) (
        all_cons (fits 128 128 266 35 1122 c.address (omega arith) a.address) (
          all_cons (fits 128 128 522 35 1122 c.city (omega arith) a.city) (
            all_cons (fits 128 128 650 35 1122 c.state (omega arith) a.state) (
              all_cons (fits 128 128 778 35 1122 c.country (omega arith) a.country)
                (all_cons (fits 16 16 906 10 1122 c.phone (omega arith) a.phone) all_nil)))))))

-- Fields in the order of their offsets, each ending before the next.
Ordered : Field → List Field → Type 0
Ordered f [] = Unit {0}
Ordered f (g ∷ fs) = (f.offset + length f.content + 1 ≤ g.offset) × Ordered g fs

Ordered-Apart :
    (f g : Field) (fs : List Field)
    → f.offset + length f.content + 1 ≤ g.offset
    → Ordered g fs
    → All (Apart f) fs
unfolding Ordered
Ordered-Apart f g [] h o = all_nil
Ordered-Apart f g (k ∷ fs) h (h', o) =
    let before : f.offset + length f.content + 1 ≤ k.offset = omega arith in
    all_cons (inl before) (Ordered-Apart f k fs before o)

Ordered-AllApart : (f : Field) (fs : List Field) → Ordered f fs → AllApart (f ∷ fs)
unfolding Ordered
Ordered-AllApart f [] o = (all_nil, tt)
Ordered-AllApart f (g ∷ fs) (h, o) =
    (all_cons (inl h) (Ordered-Apart f g fs h o), Ordered-AllApart g fs o)

Columns-Ordered : (c : Columns) → AreColumns c → Ordered (first_field c) (other_fields c)
unfolding Ordered
Columns-Ordered c a = (
  omega (arith, a.account_id.short),
  (
    omega (arith, a.last_name.short),
    (
      omega (arith, a.first_name.short),
      (
        omega (arith, a.address.short),
        (
          omega (arith, a.city.short),
          (omega (arith, a.state.short), (omega (arith, a.country.short), tt)),
        ),
      ),
    ),
  ),
)

-- A line of accounts.txt whose columns fit their arrays makes a row: its key is the account, and each
-- column stands in its own array of the struct.
pub read_line-Holds :
    (mach : Machine) (c : Columns)
    → AreColumns c
    → (row : List ℕ) × (read_line mach personal (line (first_field c) (other_fields c))
        ≡ some (c.account_id, row))
      × (length row ≡ size_of personal)
      × All (Holds row) (first_field c ∷ other_fields c)
unfolding read_line
read_line-Holds mach c a =
    let zeros : List ℕ = replicate 1122 0 in
    let bytes : length zeros ≡ 1122 = length-replicate {A = ℕ} 1122 0 in
    let (row, e, l, held) =
      sscanf-Holds mach.convert (first_field c) (other_fields c) zeros (Columns-AreScanned c a)
        (subst (λ n. All (Fits n) (first_field c ∷ other_fields c)) (sym bytes) (Columns-Fits c a))
        (Ordered-AllApart (first_field c) (other_fields c) (Columns-Ordered c a)) in
    (
      row,
      ap (λ o. o >>= λ m. c_string m >>= λ k. some (k, m)) e
          ∙ ap (λ o. o >>= λ k. some (k, row)) (All-head held),
      l ∙ bytes,
      held,
    )
