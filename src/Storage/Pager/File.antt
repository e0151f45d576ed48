-- ===== src/Storage/Pager/File.antt =====
-- The pager's own callbacks on its file, `readPageDisk` and `writePageDisk`, as a disk of the pool.
use go_db.Base.{
  ℕ, zero, suc, ◌+◌, ◌-◌, ◌*◌, ◌≤◌, ◌≡◌, ◌≢◌, refl, sym, ap, ◌∙◌, ◌⊎◌, inl, inr, true, [], ◌∷◌,
  ◌++◌, Bytes, length, replicate, copy_at, slice, length-copy_at, slice-copy_at, length-replicate,
  arith, length-append, leb, ◌==◌, ==_iff, if◌then◌else◌, Bool-cases,
}
use mathlib.Core.Path.{subst}
use go_db.Base.Result.{Result, ok}
use go_db.Base.Returns.{IsReturning, ok-ne-stuck}
use go_db.Storage.Page.{Page, IsPage, page_size}
use go_db.Storage.Pool.{PoolError}
use go_db.Storage.Pool.View.{Disk}
use go_db.Storage.Pager.{read_page_disk, write_page_disk}

-- `n` bytes of a file from `off` on, with zeros behind its end.
unfoldable pub window : Bytes → ℕ → ℕ → Bytes
window [] off zero = []
window [] off (suc n) = 0 ∷ window [] off n
window (b ∷ bs) zero zero = []
window (b ∷ bs) zero (suc n) = b ∷ window bs zero n
window (b ∷ bs) (suc off) n = window bs off n

pub length-window : (l : Bytes) (off n : ℕ) → length (window l off n) ≡ n
unfolding window
length-window [] off zero = refl
length-window [] off (suc n) = ap suc (length-window [] off n)
length-window (b ∷ bs) zero zero = refl
length-window (b ∷ bs) zero (suc n) = ap suc (length-window bs zero n)
length-window (b ∷ bs) (suc off) n = length-window bs off n

slice-window : (l : Bytes) (off n : ℕ) → off + n ≤ length l → slice l off n ≡ window l off n
unfolding window slice
slice-window [] zero zero h = refl
slice-window [] (suc off) zero h = refl
slice-window [] off (suc n) h = absurd (omega arith)
slice-window (b ∷ bs) zero zero h = refl
slice-window (b ∷ bs) zero (suc n) h = ap (◌∷◌ b) (slice-window bs zero n (omega arith))
slice-window (b ∷ bs) (suc off) n h = slice-window bs off n (omega arith)

-- Behind the end it is zeros, wherever it begins.
window-behind : (a b n : ℕ) → window [] a n ≡ window [] b n
unfolding window
window-behind a b zero = refl
window-behind a b (suc n) = ap (◌∷◌ 0) (window-behind a b n)

window-zeros : (k off n : ℕ) → window (replicate k 0) off n ≡ window [] off n
unfolding window replicate
window-zeros zero off n = refl
window-zeros (suc k) zero zero = refl
window-zeros (suc k) zero (suc n) = ap (◌∷◌ 0) (window-zeros k zero n)
window-zeros (suc k) (suc off) n = window-zeros k off n ∙ window-behind off (suc off) n

window-append : (l : Bytes) (k off n : ℕ) → window (l ++ replicate k 0) off n ≡ window l off n
unfolding window
window-append [] k off n = window-zeros k off n
window-append (b ∷ bs) k zero zero = refl
window-append (b ∷ bs) k zero (suc n) = ap (◌∷◌ b) (window-append bs k zero n)
window-append (b ∷ bs) k (suc off) n = window-append bs k off n

window-copy_at :
    (l : Bytes) (off : ℕ) (src : Bytes) (a n : ℕ)
    → off + length src ≤ length l
    → (a + n ≤ off) ⊎ (off + length src ≤ a)
    → window (copy_at l off src) a n ≡ window l a n
unfolding window copy_at
window-copy_at [] off src a n r h = refl
window-copy_at (d ∷ ds) zero [] a n r h = refl
window-copy_at (d ∷ ds) zero (s ∷ ss) zero zero r h = refl
window-copy_at (d ∷ ds) zero (s ∷ ss) zero (suc n) r h = absurd (omega arith)
window-copy_at (d ∷ ds) zero (s ∷ ss) (suc a) n r h =
    window-copy_at ds zero ss a n (omega arith) (omega arith)
window-copy_at (d ∷ ds) (suc off) src zero zero r h = refl
window-copy_at (d ∷ ds) (suc off) src zero (suc n) r h =
    ap (◌∷◌ d) (window-copy_at ds off src zero n (omega arith) (omega arith))
window-copy_at (d ∷ ds) (suc off) src (suc a) n r h =
    window-copy_at ds off src a n (omega arith) (omega arith)

-- The file as `writePageDisk` leaves it before the bytes are copied in: `off + n` bytes at least.
abbrev grown : Bytes → ℕ → ℕ → Bytes
grown file off n = file ++ replicate (off + n - length file) 0

length-grown : (file : Bytes) (off n : ℕ) → off + n ≤ length (grown file off n)
length-grown file off n =
    rw
      (
        length-append file (replicate (off + n - length file) 0),
        length-replicate {A = ℕ} (off + n - length file) 0,
      )
      (omega arith)

abbrev pub page_at : Bytes → ℕ → Page
page_at file id = record { id = id; bytes = window file (id * page_size) page_size }

apart :
    (a b : ℕ)
    → a ≢ b
    → (b * page_size + page_size ≤ a * page_size) ⊎ (a * page_size + page_size ≤ b * page_size)
apart a b n = omega (arith, n)

module _ (file : Bytes) (p : Page) (is_page : IsPage p) where
  abbrev start : ℕ
  start = p.id * page_size

  abbrev long : Bytes
  long = grown file start page_size

  room : start + length p.bytes ≤ length long
  room = rw is_page (length-grown file start page_size)

  copied : window (copy_at long start p.bytes) start page_size ≡ p.bytes
  copied =
      sym (
        slice-window (copy_at long start p.bytes) start page_size
          (rw (length-copy_at long start p.bytes) (length-grown file start page_size)))
      ∙ subst (λ n. slice (copy_at long start p.bytes) start n ≡ p.bytes) is_page
          (slice-copy_at long start p.bytes room)

  pub written_back : page_at (write_page_disk p file).1 p.id ≡ p
  unfolding write_page_disk
  written_back = ap (λ b. record { id = p.id; bytes = b }) copied

  pub left_alone : (j : ℕ) → p.id ≢ j → page_at (write_page_disk p file).1 j ≡ page_at file j
  unfolding write_page_disk
  left_alone j n =
      ap (λ b. record { id = j; bytes = b })
        (window-copy_at long start p.bytes (j * page_size) page_size room
            (rw is_page (apart p.id j n))
          ∙ window-append file (start + page_size - length file) (j * page_size) page_size)

leb_of_le : (a b : ℕ) → a ≤ b → leb a b ≡ true
leb_of_le a b h = ground arith

-- A page of 4096 bytes that `writePageDisk` wrote is what `readPageDisk` reads back, whatever the file was; and the
-- write leaves the other pages of the file alone, zeros standing for what is behind its end.
pub read_page_disk-write_page_disk :
    (file : Bytes) (p : Page) (j : ℕ)
    → IsPage p
    → ((read_page_disk p.id (write_page_disk p file).1).0 ≡ ok p)
      × (page_at (write_page_disk p file).1 j ≡ (if p.id == j then p else page_at file j))
unfolding read_page_disk write_page_disk
read_page_disk-write_page_disk file p j is_page =
    let long = grown file (p.id * page_size) page_size in
    let long_enough : p.id * page_size + page_size
        ≤ length (copy_at long (p.id * page_size) p.bytes) =
      rw (length-copy_at long (p.id * page_size) p.bytes)
        (length-grown file (p.id * page_size) page_size) in
    (
      rw
          (
            leb_of_le _ _ long_enough,
            slice-window _ (p.id * page_size) page_size long_enough,
            copied file p is_page,
          )
          refl,
      elim (Bool-cases (p.id == j)) [
        | inl same ↦ rw (same, sym ((==_iff p.id j).0 same)) (written_back file p is_page)
        | inr other ↦ rw other (left_alone file p is_page j (λ q. ground arith))
      ],
    )

le_of_leb : (a b : ℕ) → leb a b ≡ true → a ≤ b
le_of_leb a b h = ground arith

pub read_back :
    (id : ℕ) (file : Bytes) (p : Page) → (read_page_disk id file).0 ≡ ok p → p ≡ page_at file id
unfolding read_page_disk
read_back id file p = elim (Bool-cases (leb (id * page_size + page_size) (length file))) [
  | inl fits ↦
      rw (fits, slice-window file (id * page_size) page_size (le_of_leb _ _ fits))
        (λ h. same_page h)
  | inr short ↦ rw short (λ h. cc)
]
  where
    same_page : {q : Page} → ◌≡◌ {A = Result PoolError Page} (ok q) (ok p) → p ≡ q
    same_page h = cc

pub read_page_disk-keeps : (id : ℕ) (file : Bytes) → (read_page_disk id file).1 ≡ file
unfolding read_page_disk
read_page_disk-keeps id file = ground arith

pub read_page_disk-IsReturning : (id : ℕ) → IsReturning (read_page_disk id)
unfolding read_page_disk
read_page_disk-IsReturning id file h = ground arith

pub write_page_disk-IsReturning : (p : Page) → IsReturning (write_page_disk p)
unfolding write_page_disk
write_page_disk-IsReturning p file = ok-ne-stuck tt

abbrev pub file_disk : Disk Bytes
file_disk = record {
  slot = page_at;
  read_disk = read_page_disk;
  write_disk = write_page_disk;
  read_returns = read_page_disk-IsReturning;
  write_returns = write_page_disk-IsReturning;
  slot_id = λ w id. refl;
  slot_whole = λ w id. length-window w (id * page_size) page_size;
  read_slot = λ w id p h. read_back id w p h;
  read_keeps = λ w id j. ap (λ file. page_at file j) (read_page_disk-keeps id w);
  write_slot = λ w p is_page h. written_back w p is_page;
  write_keeps = λ w p j is_page n. left_alone w p is_page j n;
}
