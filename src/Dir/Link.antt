-- ===== src/Dir/Link.antt =====
-- dirlink of kernel/fs.c writes the entry of a new name.
use xv6_riscv_labs.Prelude.{
  length, ◌*◌, ℕ, ◌+◌, ◌/◌, ◌%◌, ◌^◌, ◌≤◌, ◌<◌, ◌≡◌, ◌≢◌, refl, ap, sym, ◌∙◌, true, false, Bool,
  fun_ext, Option, none, some, ◌==◌, arith, ◌⊎◌, inl, inr, ltb, if◌then◌else◌, update, update-at,
  update-other, subst,
}
use mathlib.Core.Bool.{false≢true}
use xv6_riscv_labs.Bits.{ByteArray, IsBytes}
use xv6_riscv_labs.Fs.Bitmap.{Disk, used}
use xv6_riscv_labs.Fs.Path.{dirsiz}
use xv6_riscv_labs.Str.{strncpy, strncpy_lem, strncpy-IsBytes}
use xv6_riscv_labs.Inode.Words.{le16, put16, put16-at, put16-other}
use xv6_riscv_labs.Inode.Defs.{Inode, iblock}
use xv6_riscv_labs.Inode.Content.{max_size, overlay, writei}
use xv6_riscv_labs.Inode.Bytes.{byte, IsOther}
use xv6_riscv_labs.Inode.Overlay.{overlay_cases, overlay_in, overlay_out, overlay_same}
use xv6_riscv_labs.Inode.Room.{HasRoom, turns}
use xv6_riscv_labs.Inode.Stored.{IsStored, writei_lem}
use xv6_riscv_labs.Dir.Defs.{
  kernel_copies, dirent_size, t_dir, find_entry, dirlookup, add_entry, end_link, dirlink,
  after_free, after_lookup, free_from, get_found,
}
use xv6_riscv_labs.Dir.Lookup.{IsDirectory, is_hit}
use xv6_riscv_labs.Dir.Find.{IsFirst, IsFound, IsAt, same_size, dirlookup_lem}
use xv6_riscv_labs.Dir.Slot.{IsSlot, IsFree, free_from_lem}

put16-IsBytes : (a : ByteArray) (i v : ℕ) → IsBytes a → IsBytes (put16 a i v)
unfolding put16
put16-IsBytes a i v h q = ground (arith, h q)

-- An entry is in one block.
entry_turn : (o : ℕ) → o % dirent_size ≡ 0 → 6 * turns o dirent_size ≡ 6
entry_turn o h = omega (arith, h)

-- The name is in no entry in use.
abbrev pub IsNew : ByteArray → ByteArray → ℕ → ℕ → ℕ → Type 0
IsNew f mem name de size = (o : ℕ) → o < size → o % dirent_size ≡ 0 → is_hit f mem name de o ≡ false

first-none :
    (f mem : ByteArray) (name de size : ℕ) (r : Option (ℕ × ℕ))
    → IsNew f mem name de size
    → IsFirst f mem name de 0 size r
    → r ≡ none
first-none f mem name de size none new h = refl
first-none f mem name de size (some (o, inum)) new (low, high, a, here, hit, before) =
    absurd (false≢true (sym (new o high a) ∙ hit))

-- What `dirlink` leaves of a directory `t p` when it takes the entry at `o`.
pub record IsLinked (p name de inum : ℕ) (mem : ByteArray) (t : ℕ → Inode) (d : Disk)
    (r : Option (Bool × ByteArray × (ℕ → Inode) × Disk)) : Type 0 where
  pub o : ℕ
  pub slot : IsSlot mem de 0 (t p) d o
  pub count : ℕ
  pub mem' : ByteArray
  pub t' : ℕ → Inode
  pub d' : Disk
  pub result : r ≡ some (count == dirent_size, mem', t', d')
  pub at_most : count ≤ dirent_size
  pub full : count < dirent_size → (y : ℕ) → y < d'.size → used d' y ≡ true
  pub table : (i : ℕ) → p ≢ i → t' i ≡ t i
  pub size : (t' p).size ≡ (if ltb (t p).size (o + count) then o + count else (t p).size)
  pub bytes :
      (q : ℕ)
      → q < max_size
      → byte (t' p) d' q ≡ overlay (byte (t p) d) o count (λ i. mem' (de + i)) q
  pub number : le16 mem' de ≡ inum
  pub named :
      (i : ℕ)
      → i < dirsiz
      → ((j : ℕ) → j < i → mem (name + j) ≢ 0)
      → mem' (de + 2 + i) ≡ mem (name + i)
  pub padded : (i j : ℕ) → i < dirsiz → j < i → mem (name + j) ≡ 0 → mem' (de + 2 + i) ≡ 0

found-IsAt :
    (mem : ByteArray) (name de : ℕ) (dp : Inode) (d : Disk)
    (r : Option (Option (ℕ × ℕ) × ByteArray × Inode × Disk))
    → (w : IsFound mem name de 0 dp d r) → IsAt dp d mem name de w.mem' w.dp' w.d'
found-IsAt mem name de dp d r w = record {
  directory = w.directory;
  rewritten = w.rewritten;
  again = λ src. fun_ext (λ q. elim (overlay_cases de dirent_size q) [
    | inl (low, high) ↦
        overlay_in w.mem' de dirent_size src q low high
        ∙ sym (overlay_in mem de dirent_size src q low high)
    | inr out ↦
        overlay_out w.mem' de dirent_size src q out
        ∙ w.outside q out
        ∙ sym (overlay_out mem de dirent_size src q out)
  ]);
  outside = w.outside;
  kept = w.kept;
  log = w.log;
}

module _ (inodestart p name de inum : ℕ) (mem : ByteArray) (t : ℕ → Inode) (d : Disk)
    (bytes : IsBytes mem) (home : IsOther (t p) d (iblock inodestart (t p).inum))
    (fits : (t p).size + dirent_size ≤ max_size) (room : length d.logged + 6 < d.limit)
    (apart : (name + dirsiz ≤ de) ⊎ (de + dirent_size ≤ name)) (small : inum < 2 ^ 16) where
  -- The entry in memory.
  module _ (m : ByteArray)
      (outside : (q : ℕ) → (q < de) ⊎ (de + dirent_size ≤ q) → m q ≡ mem q) where
    abbrev entry : ByteArray
    entry = put16 (strncpy (de + 2) name dirsiz m) de inum

    name_kept : (j : ℕ) → j < dirsiz → m (name + j) ≡ mem (name + j)
    name_kept j h = outside (name + j) (ground (arith, apart, h))

    entry-named :
        (i : ℕ)
        → i < dirsiz
        → ((j : ℕ) → j < i → mem (name + j) ≢ 0)
        → entry (de + 2 + i) ≡ mem (name + i)
    entry-named i h plain =
        put16-other (strncpy (de + 2) name dirsiz m) de inum (de + 2 + i) (inr (omega arith))
        ∙ (strncpy_lem (de + 2) name dirsiz m (ground (arith, apart))).0 i h
            (λ j k z. plain j k (sym (name_kept j (omega (arith, h, k))) ∙ z))
        ∙ name_kept i h

    entry-padded : (i j : ℕ) → i < dirsiz → j < i → mem (name + j) ≡ 0 → entry (de + 2 + i) ≡ 0
    entry-padded i j h k z =
        put16-other (strncpy (de + 2) name dirsiz m) de inum (de + 2 + i) (inr (omega arith))
        ∙ (strncpy_lem (de + 2) name dirsiz m (ground (arith, apart))).1 i j h k
            (name_kept j (omega (arith, h, k)) ∙ z)

  module _ (t1 : ℕ → Inode) (o : ℕ) (m : ByteArray) (dp : Inode) (d2 : Disk)
      (s : IsAt (t p) d mem name de m dp d2) (slot : IsSlot mem de 0 (t p) d o)
      (table : (i : ℕ) → p ≢ i → t1 i ≡ t i) where
    stored-IsLinked :
        (count : ℕ) (ip' : Inode) (d' : Disk)
        → writei inodestart kernel_copies (entry m s.outside) o dirent_size de dp d2
          ≡ some (some count, ip', d')
        → IsStored inodestart (entry m s.outside) o dirent_size de dp d2 count ip' d'
        → IsLinked p name de inum mem t d
            (end_link p t1 (add_entry inodestart name de inum (o, m, dp, d2)))
    unfolding add_entry
    stored-IsLinked count ip' d' e w = record {
      o = o;
      slot = slot;
      count = count;
      mem' = entry m s.outside;
      t' = update t1 p ip';
      d' = d';
      result = rw (e, end_link) refl;
      at_most = w.at_most;
      full = w.short;
      table = λ i n. update-other t1 p ip' i n ∙ table i n;
      size =
          ap (λ i. i.size) (update-at t1 p ip')
          ∙ w.size
          ∙ ap (λ n. if ltb n (o + count) then o + count else n)
              (same_size (t p) d mem name de m dp d2 s);
      bytes = λ q h.
          ap (λ i. byte i d' q) (update-at t1 p ip')
          ∙ w.bytes q h
          ∙ overlay_same (byte dp d2) (byte (t p) d) o count (λ i. entry m s.outside (de + i)) q
              (s.rewritten.bytes q h);
      number = put16-at (strncpy (de + 2) name dirsiz m) de inum small;
      named = entry-named m s.outside;
      padded = entry-padded m s.outside;
    }

    add_entry-IsLinked :
        IsLinked p name de inum mem t d
          (end_link p t1 (add_entry inodestart name de inum (o, m, dp, d2)))
    add_entry-IsLinked =
        let inum_same : dp.inum ≡ (t p).inum = ap (λ i. i.inum) s.rewritten.fields in
        let size_same = same_size (t p) d mem name de m dp d2 s in
        let one : 6 * turns o dirent_size ≡ 6 = entry_turn o slot.aligned in
        let room' : HasRoom d2 o dirent_size =
          rw (s.log.limit, s.log.logged) (omega (arith, one, room)) in
        let home' : IsOther dp d2 (iblock inodestart dp.inum) =
          subst (λ i. IsOther dp d2 (iblock inodestart i)) (sym inum_same)
            (s.rewritten.others (iblock inodestart (t p).inum) home).0 in
        let (count, ip', d', e, w) =
          writei_lem inodestart kernel_copies (entry m s.outside) o dirent_size de dp d2
            (λ a n. refl)
            (put16-IsBytes (strncpy (de + 2) name dirsiz m) de inum
              (strncpy-IsBytes (de + 2) name dirsiz m (s.kept bytes)))
            s.directory.disk s.directory.file home' (omega (arith, slot.high, size_same))
            (omega (arith, slot.high, fits)) room' in
        stored-IsLinked count ip' d' e w

  free-IsLinked :
      (t1 : ℕ → Inode)
      → (r : Option (ℕ × ByteArray × Inode × Disk)) → ((i : ℕ) → p ≢ i → t1 i ≡ t i)
      → IsFree mem name de 0 (t p) d r
      → IsLinked p name de inum mem t d (after_free inodestart p name de inum t1 r)
  free-IsLinked t1 r table f =
      rw f.result (add_entry-IsLinked t1 f.o f.mem' f.dp' f.d' f.at f.slot table)

-- `dirlink` of a number of 16 bits and a name that is in no entry in use, in a directory of the
-- table whose entries are whole and have their blocks and which is below the largest file by an
-- entry, with the inode's block in use and none of the directory's, memory of bytes, the name and
-- `de` apart in it, and room for seven blocks in the log of the transaction: it does not panic. It takes the first free entry or, if there is none, the
-- end, and returns 0 exactly if it wrote all of it, which it does unless the disk is full
-- afterwards. The directory then has the entry's bytes there and its old ones elsewhere, and grows
-- by what was written past its end; the entry is the number and the name, padded with zeros; no
-- other entry of the table changes.
pub dirlink_lem :
    (inodestart p name de inum : ℕ) (mem : ByteArray) (t : ℕ → Inode) (d : Disk)
    → (t p).type ≡ t_dir
    → IsDirectory (t p) d
    → IsBytes mem
    → IsOther (t p) d (iblock inodestart (t p).inum)
    → (t p).size + dirent_size ≤ max_size
    → length d.logged + 6 < d.limit
    → (name + dirsiz ≤ de) ⊎ (de + dirent_size ≤ name)
    → inum < 2 ^ 16
    → IsNew (byte (t p) d) mem name de (t p).size
    → IsLinked p name de inum mem t d (dirlink inodestart p name de inum mem t d)
unfolding dirlink
dirlink_lem inodestart p name de inum mem t d type r bytes home fits room apart small new =
    let (w, e) = dirlookup_lem p name de mem t d type r in
    let absent = first-none (byte (t p) d) mem name de (t p).size w.found new w.first in
    let t1 = update t p w.dp' in
    let s = found-IsAt mem name de (t p) d (find_entry name de (mem, t p, d)) w in
    let size_same = same_size (t p) d mem name de w.mem' w.dp' w.d' s in
    let f =
      free_from_lem (t p) d mem name de (w.dp'.size / dirent_size + 1) 0 w.mem' w.dp' w.d'
        r.disk.mapped.bytes s refl (omega arith) (omega (arith, size_same)) in
    let linked =
      free-IsLinked inodestart p name de inum mem t d bytes home fits room apart small t1 _
        (λ i n. update-other t p w.dp' i n) f in
    let looked : dirlookup p name de mem t d ≡ some (none, w.mem', t1, w.d') =
      e ∙ ap (λ r. get_found (t p).dev t1 (r, w.mem', w.dp', w.d')) absent in
    subst (λ r. IsLinked p name de inum mem t d (after_lookup inodestart p name de inum r))
      (sym looked)
      (subst
        (λ i. IsLinked p name de inum mem t d (
          after_free inodestart p name de inum t1
            (free_from (i.size / dirent_size + 1) de 0 (w.mem', i, w.d'))))
        (sym (update-at t p w.dp')) linked)
