-- ===== src/Load/Scan/Fields.antt =====
-- Lines whose fields fit their arrays: `sscanf` puts each field into its own array.
use chronos_prototype.Base.{
  ℕ, zero, suc, ◌+◌, ◌≤◌, ◌<◌, ◌≡◌, ◌≢◌, ◌⊎◌, inl, inr, refl, sym, ap, ◌∙◌, Option, some, List, [],
  ◌∷◌, ◌++◌, length, arith, All, All-mono, append_assoc, all_nil, all_cons, Text, length-append,
  Option-cases, subst,
}
use mathlib.Core.Path.{fun_ext}
use chronos_prototype.Load.Scan.Memory.{
  store-inside, c_string-append, store-written, store-behind, drop-before,
}
use chronos_prototype.Load.Scan.{
  Directive, scanset, literal, Convert, ◌>>=◌, store, scan_set, put_set, sscanf, drop, c_string,
}

-- An array of the struct: the width of its conversion, its offset, and a text for it.
pub record Field : Type 0 where
  pub width : ℕ
  pub offset : ℕ
  pub content : Text

-- `content` can be scanned: it is not empty, within the width, and without the closing character.
pub record IsScanned (c : ℕ) (f : Field) : Type 0 where
  pub full : 0 < length f.content
  pub short : length f.content ≤ f.width
  pub plain : All (λ x. x ≢ c) f.content

-- The format `%w[^#]#%w[^#]#…%w[^\n]`, and the line that it reads.
abbrev pub format : Field → List Field → List Directive
format f [] = scanset f.width 10 f.offset ∷ []
format f (g ∷ fs) = scanset f.width 35 f.offset ∷ literal 35 ∷ format g fs

abbrev pub line : Field → List Field → Text
line f [] = f.content ++ 10 ∷ []
line f (g ∷ fs) = f.content ++ 35 ∷ line g fs

abbrev pub AreScanned : Field → List Field → Type 0
AreScanned f [] = IsScanned 10 f
AreScanned f (g ∷ fs) = IsScanned 35 f × AreScanned g fs

-- The bytes that a field is given, with the NUL.
abbrev pub bytes : Field → List ℕ
bytes f = f.content ++ 0 ∷ []

abbrev pub store_fields : List Field → List ℕ → Option (List ℕ)
store_fields [] mem = some mem
store_fields (f ∷ fs) mem = store f.offset (bytes f) mem >>= λ m. store_fields fs m

scan_set-append :
    (w c : ℕ) (t rest : Text)
    → length t ≤ w
    → All (λ x. x ≢ c) t
    → scan_set w c (t ++ c ∷ rest) ≡ (t, c ∷ rest)
unfolding scan_set
scan_set-append zero c [] rest h p = refl
scan_set-append zero c (x ∷ t) rest h p = absurd (omega arith)
scan_set-append (suc w) c [] rest h p = ground arith
scan_set-append (suc w) c (x ∷ t) rest h (all_cons q p) =
    ground (arith, scan_set-append w c t rest, p)

-- A field is scanned into its array, and the rest goes on behind it.
sscanf-field :
    (conv : Convert) (w c off : ℕ) (t : Text) (ds : List Directive) (rest : Text) (mem : List ℕ)
    → 0 < length t
    → length t ≤ w
    → All (λ x. x ≢ c) t
    → sscanf conv (scanset w c off ∷ ds) (t ++ c ∷ rest) mem
      ≡ (store off (t ++ 0 ∷ []) mem >>= λ m. sscanf conv ds (c ∷ rest) m)
unfolding sscanf
sscanf-field conv w c off [] ds rest mem full short plain = absurd (omega arith)
sscanf-field conv w c off (x ∷ t) ds rest mem full short plain =
    ap (put_set off mem (λ r m. sscanf conv ds r m)) (scan_set-append w c (x ∷ t) rest short plain)

sscanf-hash :
    (conv : Convert) (ds : List Directive) (s : Text) (mem : List ℕ)
    → sscanf conv (literal 35 ∷ ds) (35 ∷ s) mem ≡ sscanf conv ds s mem
unfolding sscanf
sscanf-hash conv ds s mem = refl

sscanf-done : (conv : Convert) (s : Text) (mem : List ℕ) → sscanf conv [] s mem ≡ some mem
unfolding sscanf
sscanf-done conv s mem = refl

-- The whole line: the fields are stored one after the other.
sscanf-line :
    (conv : Convert) (f : Field) (fs : List Field) (mem : List ℕ)
    → AreScanned f fs
    → sscanf conv (format f fs) (line f fs) mem ≡ store_fields (f ∷ fs) mem
sscanf-line conv f [] mem h =
    sscanf-field conv f.width 10 f.offset f.content [] [] mem h.full h.short h.plain
    ∙ ap (λ k. store f.offset (bytes f) mem >>= k) (fun_ext (λ m. sscanf-done conv (10 ∷ []) m))
sscanf-line conv f (g ∷ fs) mem (h, hs) =
    sscanf-field conv f.width 35 f.offset f.content (literal 35 ∷ format g fs) (line g fs) mem
      h.full h.short h.plain
    ∙ ap (λ k. store f.offset (bytes f) mem >>= k)
        (fun_ext (λ m. sscanf-hash conv (format g fs) (line g fs) m ∙ sscanf-line conv g fs m hs))

-- The text with its NUL stands at the offset.
abbrev pub Holds : List ℕ → Field → Type 0
Holds mem f = c_string (drop f.offset mem) ≡ some f.content

-- Two fields that share no byte.
abbrev pub Apart : Field → Field → Type 0
Apart f g =
    (f.offset + length f.content + 1 ≤ g.offset) ⊎ (g.offset + length g.content + 1 ≤ f.offset)

abbrev pub AllApart : List Field → Type 0
AllApart [] = Unit {0}
AllApart (f ∷ fs) = All (Apart f) fs × AllApart fs

-- A text without NUL, in `n` bytes.
abbrev pub Fits : ℕ → Field → Type 0
Fits n f = All (λ x. x ≢ 0) f.content × (f.offset + length f.content + 1 ≤ n)

length-bytes : (f : Field) → length (bytes f) ≡ length f.content + 1
length-bytes f = length-append f.content (0 ∷ [])

-- A field stays when another is written.
Holds-store :
    (f g : Field) (mem m : List ℕ)
    → Apart f g
    → store f.offset (bytes f) mem ≡ some m
    → Holds mem g
    → Holds m g
Holds-store f g mem m (inl behind) e h =
    ap c_string (store-behind f.offset (bytes f) mem m g.offset e (omega (arith, length-bytes f)))
    ∙ h
Holds-store f g mem m (inr before) e h =
    drop-before g.offset f.offset (bytes f) mem m g.content e h before

Holds-written :
    (f : Field) (mem m : List ℕ)
    → All (λ x. x ≢ 0) f.content
    → store f.offset (bytes f) mem ≡ some m
    → Holds m f
Holds-written f mem m plain e =
    let (rest, d) = store-written f.offset (bytes f) mem m (omega (arith, length-bytes f)) e in
    ap c_string (d ∙ append_assoc f.content (0 ∷ []) rest) ∙ c_string-append f.content rest plain

Apart-symm : (f g : Field) → Apart f g → Apart g f
Apart-symm f g (inl h) = inr h
Apart-symm f g (inr h) = inl h

store_fields-keeps :
    (fs : List Field) (g : Field) (mem m : List ℕ)
    → All (λ f. Apart f g) fs
    → store_fields fs mem ≡ some m
    → Holds mem g
    → Holds m g
store_fields-keeps [] g mem m a e h = ground (arith, e)
store_fields-keeps (f ∷ fs) g mem m (all_cons a as_) e h =
    elim (Option-cases (store f.offset (bytes f) mem)) [
      | inl n ↦ absurd (ground (arith, n))
      | inr (m1, s) ↦
          store_fields-keeps fs g m1 m as_ (sym (ap (λ o. o >>= store_fields fs) s) ∙ e)
            (Holds-store f g mem m1 a s h)
    ]

-- Fields that share no byte, in `n` bytes: all are stored, and each is there at the end.
pub store_fields-Holds :
    (fs : List Field) (mem : List ℕ)
    → All (Fits (length mem)) fs
    → AllApart fs
    → (m : List ℕ) × (store_fields fs mem ≡ some m) × (length m ≡ length mem) × All (Holds m) fs
store_fields-Holds [] mem fit apart = (mem, refl, refl, all_nil)
store_fields-Holds (f ∷ fs) mem (all_cons (plain, inside) fit) (a, apart) =
    let (m1, s, l1) = store-inside f.offset (bytes f) mem (omega (arith, length-bytes f)) in
    let (m, e, l, held) =
      store_fields-Holds fs m1 (subst (λ n. All (Fits n) fs) (sym l1) fit) apart in
    (
      m,
      ap (λ o. o >>= store_fields fs) s ∙ e,
      l ∙ l1,
      all_cons
          (store_fields-keeps fs f m1 m (All-mono (λ g. Apart-symm f g) a) e
            (Holds-written f mem m1 plain s))
          held,
    )

-- A line of texts that are not empty, within their widths, and without the closing characters, for
-- fields that share no byte: `sscanf` ends inside the struct, and each text stands in its own array.
pub sscanf-Holds :
    (conv : Convert) (f : Field) (fs : List Field) (mem : List ℕ)
    → AreScanned f fs
    → All (Fits (length mem)) (f ∷ fs)
    → AllApart (f ∷ fs)
    → (m : List ℕ) × (sscanf conv (format f fs) (line f fs) mem ≡ some m)
      × (length m ≡ length mem)
      × All (Holds m) (f ∷ fs)
sscanf-Holds conv f fs mem scanned fit apart =
    let (m, e, l, held) = store_fields-Holds (f ∷ fs) mem fit apart in
    (m, sscanf-line conv f fs mem scanned ∙ e, l, held)
