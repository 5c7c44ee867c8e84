-- ===== src/File/Holders.antt =====
-- The reference counts of the table against the references that are held.
use xv6_riscv_labs.Prelude.{
  ℕ, zero, suc, ◌+◌, ◌-◌, ◌≤◌, ◌<◌, ◌≡◌, ◌≢◌, refl, sym, ◌∙◌, none, some, List, [], ◌∷◌, ◌++◌, ◌==◌,
  ltb, if◌then◌else◌, update, arith, ◌⊎◌, inl, inr, ℕ_discrete, ==-false, subst,
}
use xv6_riscv_labs.File.Table.{
  File, FileType, Closing, fd_pipe, fd_inode, fd_device, close_pipe, put_inode, Ftable, nfile,
  fd_none, filealloc_from, filealloc, filedup, nothing, closing, fileclose,
}

-- How often file `f` stands in the list of references: file descriptors and running calls.
abbrev pub count : ℕ → List ℕ → ℕ
count f [] = 0
count f (g ∷ held) = if f == g then suc (count f held) else count f held

pub count-append : (f : ℕ) (xs ys : List ℕ) → count f (xs ++ ys) ≡ count f xs + count f ys
count-append f [] ys = omega arith
count-append f (g ∷ xs) ys = ground (arith, count-append f xs ys)

-- Each file's count is the number of references held, and an unheld file has no type.
pub record IsCounted (t : Ftable) (held : List ℕ) : Type 0 where
  pub counted : (f : ℕ) → (t f).ref ≡ count f held
  pub known : (f : ℕ) → 1 ≤ count f held → f < nfile

-- The scan finds the first file with count 0, or all files below the end are in use.
pub filealloc_from_lem :
    (k i : ℕ) (t : Ftable)
    → ((filealloc_from k i t ≡ (none, t)) × ((f : ℕ) → i ≤ f → f < i + k → (t f).ref ≢ 0))
      ⊎ ((f : ℕ) × (i ≤ f)
          × (f < i + k)
          × ((t f).ref ≡ 0)
          × ((g : ℕ) → i ≤ g → g < f → (t g).ref ≢ 0)
          × (filealloc_from k i t ≡ (some f, update t f (record (t f) { ref = 1 }))))
unfolding filealloc_from
filealloc_from_lem zero i t = inl (refl, λ f p q. absurd (omega arith))
filealloc_from_lem (suc k) i t = elim (ℕ_discrete (t i).ref 0) [
  | yes e ↦ inr (i, omega arith, omega arith, e, (λ g p q. absurd (omega arith)), ground arith)
  | no ne ↦ elim (filealloc_from_lem k (i + 1) t) [
    | inl (e, used) ↦ inl (ground (arith, e), used_from ne used)
    | inr (f, lo, hi, free, first, e) ↦ inr (
      f,
      omega arith,
      omega arith,
      free,
      (λ g p q. elim (ℕ_discrete i g) [
        | yes same ↦ rw (← same) ne
        | no other ↦ first g (omega arith) q
      ]),
      ground (arith, e),
    )
  ]
]
  where
    used_from :
        (t i).ref ≢ 0
        → ((f : ℕ) → i + 1 ≤ f → f < i + 1 + k → (t f).ref ≢ 0)
        → (f : ℕ) → i ≤ f
        → f < i + suc k
        → (t f).ref ≢ 0
    used_from ne used f p q = elim (ℕ_discrete i f) [
      | yes same ↦ rw (← same) ne
      | no other ↦ used f (omega arith) (omega arith)
    ]

-- `filealloc` fails only if every file of the table is held; the file that it returns is held by
-- nobody, and the counts then include the new reference.
pub filealloc-IsCounted :
    (t : Ftable) (held : List ℕ)
    → IsCounted t held
    → ((filealloc t ≡ (none, t)) × ((f : ℕ) → f < nfile → 1 ≤ count f held))
      ⊎ ((f : ℕ) × (t' : Ftable) × (filealloc t ≡ (some f, t'))
          × (f < nfile)
          × (count f held ≡ 0)
          × IsCounted t' (f ∷ held))
unfolding filealloc
filealloc-IsCounted t held c = elim (filealloc_from_lem nfile 0 t) [
  | inl (e, used) ↦ inl (e, λ f p. omega (arith, c.counted f, used f (omega arith) (omega arith)))
  | inr (f, lo, hi, free, first, e) ↦ inr (
    f,
    update t f (record (t f) { ref = 1 }),
    e,
    omega arith,
    sym (c.counted f) ∙ free,
    record {
      counted = λ g. ground (arith, c.counted g, c.counted f);
      known = λ g p. ground (arith, c.known g);
    },
  )
]

-- `filedup` of a held file does not panic, and counts one reference more.
pub filedup-IsCounted :
    (f : ℕ) (t : Ftable) (held : List ℕ)
    → IsCounted t held
    → 1 ≤ count f held
    → (t' : Ftable) × (filedup f t ≡ some t') × IsCounted t' (f ∷ held)
unfolding filedup
filedup-IsCounted f t held c h = (
  update t f (record (t f) { ref = (t f).ref + 1 }),
  ground (arith, c.counted f),
  record {
    counted = λ g. ground (arith, c.counted g, c.counted f);
    known = λ g p. ground (arith, c.known g, c.known f);
  },
)

-- The table after `fileclose` of `f`.
abbrev closed : ℕ → Ftable → Ftable
closed f t =
    if ltb 0 ((t f).ref - 1)
    then update t f (record (t f) { ref = (t f).ref - 1 })
    else update t f (record (t f) { ref = 0; type = fd_none })

-- What is left to do for a file of which the last reference is closed.
abbrev pub Closes : File → Closing → Type 0
Closes ff c =
    ((ff.type ≡ fd_none) × (c ≡ nothing))
    ⊎ ((ff.type ≡ fd_pipe) × (c ≡ close_pipe ff.pipe ff.writable))
    ⊎ (((ff.type ≡ fd_inode) ⊎ (ff.type ≡ fd_device)) × (c ≡ put_inode ff.ip))

closing-Closes : (ff : File) → Closes ff (closing ff)
closing-Closes ff = go ff.type refl
  where
    go : (y : FileType) → ff.type ≡ y → Closes ff (closing ff)
    go fd_none e = inl (e, rw e refl)
    go fd_pipe e = inr (inl (e, rw e refl))
    go fd_inode e = inr (inr (inl e, rw e refl))
    go fd_device e = inr (inr (inr e, rw e refl))

-- `fileclose` of a held file does not panic and drops one reference. It closes the pipe or puts
-- the inode, of a device too, exactly if that was the last reference.
pub fileclose-IsCounted :
    (f : ℕ) (t : Ftable) (held xs ys : List ℕ)
    → IsCounted t held
    → held ≡ xs ++ (f ∷ ys)
    → (c : Closing) × (t' : Ftable) × (fileclose f t ≡ some (c, t'))
      × (count f (xs ++ ys) ≡ 0 → Closes (t f) c)
      × (count f (xs ++ ys) ≢ 0 → c ≡ nothing)
      × IsCounted t' (xs ++ ys)
unfolding fileclose
fileclose-IsCounted f t held xs ys c e = (
  (if count f (xs ++ ys) == 0 then closing (t f) else nothing),
  closed f t,
  ground (arith, size f, c.counted f),
  (λ z. subst (Closes (t f)) (rw z refl) (closing-Closes (t f))),
  (λ n. rw (==-false (count f (xs ++ ys)) 0 n) refl),
  record {
    counted = λ g. ground (arith, size g, c.counted g, c.counted f, size f);
    known = λ g p. ground (arith, size g, c.known g);
  },
)
  where
    size : (g : ℕ) → count g held ≡ count g (xs ++ ys) + (if g == f then 1 else 0)
    size g = rw e (ground (arith, count-append g xs (f ∷ ys), count-append g xs ys))
