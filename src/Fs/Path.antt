-- ===== src/Fs/Path.antt =====
-- Path elements of kernel/fs.c: `skipelem`. A path is the list of its bytes before the NUL, and a
-- name buffer gives the byte at each index.
use mathlib.Core.List.{append-nil}
use xv6_riscv_labs.Prelude.{
  ℕ, zero, suc, ◌+◌, ◌≤◌, ◌<◌, ◌≡◌, ◌≢◌, refl, ap, ◌∙◌, sym, subst, dec_lt, ◌-◌, Option, none, some,
  List, [], ◌∷◌, ◌++◌, ◌==◌, ltb, leb, if◌then◌else◌, update, arith, length, get_or, Bool-cases,
  ◌⊎◌, inl, inr,
}

abbrev pub dirsiz : ℕ
dirsiz = 14

-- `while(*path == '/') path++;`
unfoldable pub skip_slashes : List ℕ → List ℕ
skip_slashes [] = []
skip_slashes (c ∷ path) = if c == b'/' then skip_slashes path else c ∷ path

-- `while(*path != '/' && *path != 0) path++;`: what is passed over, and the rest.
unfoldable pub element : List ℕ → List ℕ × List ℕ
element [] = ([], [])
element (c ∷ path) =
    let (elem, rest) = element path in if c == b'/' then ([], c ∷ path) else (c ∷ elem, rest)

-- `memmove(name, s, n)` from the bytes of `s`, to index `i` on.
unfoldable pub copy_bytes : ℕ → ℕ → List ℕ → (ℕ → ℕ) → ℕ → ℕ
copy_bytes zero i s name = name
copy_bytes (suc n) i [] name = name
copy_bytes (suc n) i (c ∷ s) name = copy_bytes n (i + 1) s (update name i c)

-- Copy an element into the name buffer: cut off at `DIRSIZ` bytes, or closed by a NUL.
unfoldable pub copy_name : List ℕ → (ℕ → ℕ) → ℕ → ℕ
copy_name s name =
    let len = length s in
    if leb dirsiz len then copy_bytes dirsiz 0 s name else update (copy_bytes len 0 s name) len 0

-- `skipelem`: the rest of the path and the name buffer, or `none` for a null pointer.
unfoldable pub skipelem : List ℕ → (ℕ → ℕ) → Option (List ℕ × (ℕ → ℕ))
unfolding skip_slashes element copy_name
skipelem path name = elim (skip_slashes path) [
  | [] ↦ none
  | c ∷ s ↦ let (elem, rest) = element (c ∷ s) in some (skip_slashes rest, copy_name elem name)
]

abbrev pub AllSlash : List ℕ → Type 0
AllSlash [] = Unit
AllSlash (c ∷ s) = (c ≡ b'/') × AllSlash s

abbrev pub NoSlash : List ℕ → Type 0
NoSlash [] = Unit
NoSlash (c ∷ s) = (c ≢ b'/') × NoSlash s

abbrev pub StartsPlain : List ℕ → Type 0
StartsPlain [] = Unit
StartsPlain (c ∷ s) = c ≢ b'/'

skip_slashes_lem :
    (path : List ℕ)
    → (front : List ℕ) × (path ≡ front ++ skip_slashes path)
      × AllSlash front
      × StartsPlain (skip_slashes path)
unfolding skip_slashes
skip_slashes_lem [] = ([], refl, tt, tt)
skip_slashes_lem (c ∷ path) = elim (Bool-cases (c == b'/')) [
  | inl e ↦
      let (front, s, all, plain) = skip_slashes_lem path in
      rw e (c ∷ front, ap (λ l. c ∷ l) s, (ground arith, all), plain)
  | inr e ↦ rw e ([], refl, tt, ground arith)
]

-- The rest of an element is empty or begins with a slash.
abbrev pub StartsSlash : List ℕ → Type 0
StartsSlash [] = Unit
StartsSlash (c ∷ s) = c ≡ b'/'

element_lem :
    (path : List ℕ)
    → (path ≡ (element path).0 ++ (element path).1)
      × NoSlash (element path).0
      × StartsSlash (element path).1
unfolding element
element_lem [] = (refl, tt, tt)
element_lem (c ∷ path) = elim (Bool-cases (c == b'/')) [
  | inl e ↦ rw e (refl, tt, ground arith)
  | inr e ↦
      let (s, no_slash, slash) = element_lem path in
      rw e (ap (λ l. c ∷ l) s, (ground arith, no_slash), slash)
]

get_or_cons :
    (c : ℕ) (s : List ℕ) (k : ℕ) → get_or (c ∷ s) k 0 ≡ (if k == 0 then c else get_or s (k - 1) 0)
get_or_cons c s zero = refl
get_or_cons c s (suc k) = ground arith

copy_bytes_lem :
    (n i : ℕ) (s : List ℕ) (name : ℕ → ℕ) (j : ℕ)
    → n ≤ length s
    → copy_bytes n i s name j
      ≡ (if leb i j then (if ltb j (i + n) then get_or s (j - i) 0 else name j) else name j)
unfolding copy_bytes
copy_bytes_lem zero i s name j h = ground arith
copy_bytes_lem (suc n) i [] name j h = absurd (omega arith)
copy_bytes_lem (suc n) i (c ∷ s) name j h =
    ground (arith, copy_bytes_lem n (i + 1) s (update name i c) j, get_or_cons c s (j - i))

-- The name buffer holds the first `DIRSIZ` bytes of the element, with a NUL behind a shorter one,
-- and no byte from `DIRSIZ` on is written.
pub copy_name_lem :
    (s : List ℕ) (name : ℕ → ℕ)
    → ((j : ℕ) → j < length s → j < dirsiz → copy_name s name j ≡ get_or s j 0)
      × (length s < dirsiz → copy_name s name (length s) ≡ 0)
      × ((j : ℕ) → dirsiz ≤ j → copy_name s name j ≡ name j)
unfolding copy_name
copy_name_lem s name = elim (dec_lt (length s) dirsiz) [
  | yes short ↦ (
    λ j p q. ground (arith, copy_bytes_lem (length s) 0 s name j),
    λ p. ground arith,
    λ j p. ground (arith, copy_bytes_lem (length s) 0 s name j),
  )
  | no long ↦ (
    λ j p q. ground (arith, copy_bytes_lem dirsiz 0 s name j),
    λ p. absurd (long p),
    λ j p. ground (arith, copy_bytes_lem dirsiz 0 s name j),
  )
]

-- How a path splits: slashes, an element, slashes, and the rest.
pub record Splits (path elem rest : List ℕ) : Type 0 where
  pub front : List ℕ
  pub back : List ℕ
  pub whole : path ≡ front ++ (elem ++ (back ++ rest))
  pub front_slashes : AllSlash front
  pub back_slashes : AllSlash back
  pub no_slash : NoSlash elem
  pub nonempty : elem ≢ []
  pub rest_plain : StartsPlain rest
  pub separated : (rest ≢ []) → back ≢ []

first_plain : (c : ℕ) (s : List ℕ) → c ≢ b'/' → (element (c ∷ s)).0 ≢ []
unfolding element
first_plain c s h = ground arith

append_slash :
    (back rest l : List ℕ)
    → StartsSlash l
    → l ≡ back ++ rest
    → StartsPlain rest
    → rest ≢ []
    → back ≢ []
append_slash [] [] l s e p ne h = ne refl
append_slash [] (c ∷ rest) [] s e p ne h = cc
append_slash [] (c ∷ rest) (x ∷ l) s e p ne h = ground arith
append_slash (b ∷ back) rest l s e p ne h = cc

-- `skipelem` returns a null pointer exactly on a path of slashes only. Otherwise the path is some
-- slashes, the next element, more slashes and the rest that it returns, which does not begin with
-- a slash; and the name buffer is filled from that element.
pub skipelem_lem :
    (path : List ℕ) (name : ℕ → ℕ)
    → ((skipelem path name ≡ none) × AllSlash path)
      ⊎ ((elem : List ℕ) × (rest : List ℕ) × (skipelem path name ≡ some (rest, copy_name elem name))
          × Splits path elem rest)
unfolding skipelem
skipelem_lem path name =
    let (front, whole, slashes, plain) = skip_slashes_lem path in
    go (skip_slashes path) refl front whole slashes plain
  where
    go :
        (s : List ℕ)
        → skip_slashes path ≡ s
        → (front : List ℕ) → path ≡ front ++ skip_slashes path
        → AllSlash front
        → StartsPlain (skip_slashes path)
        → ((skipelem path name ≡ none) × AllSlash path)
          ⊎ ((elem : List ℕ) × (rest : List ℕ) × (skipelem path name
                ≡ some (rest, copy_name elem name))
              × Splits path elem rest)
    go [] e front whole slashes plain = inl (
      rw (e, skipelem),
      subst AllSlash (sym (whole ∙ ap (λ l. front ++ l) e ∙ append-nil front)) slashes,
    )
    go (c ∷ s) e front whole slashes plain =
        let (split, no_slash, slash) = element_lem (c ∷ s) in
        let (back, more, back_slashes, rest_plain) = skip_slashes_lem (element (c ∷ s)).1 in
        inr (
          (element (c ∷ s)).0,
          skip_slashes (element (c ∷ s)).1,
          rw (e, skipelem),
          record {
            front = front;
            back = back;
            whole =
                whole
                ∙ ap (λ l. front ++ l) (e ∙ split)
                ∙ ap (λ l. front ++ ((element (c ∷ s)).0 ++ l)) more;
            front_slashes = slashes;
            back_slashes = back_slashes;
            no_slash = no_slash;
            nonempty = first_plain c s (rw e at plain);
            rest_plain = rest_plain;
            separated =
                append_slash back (skip_slashes (element (c ∷ s)).1) (element (c ∷ s)).1 slash more
                  rest_plain;
          },
        )
