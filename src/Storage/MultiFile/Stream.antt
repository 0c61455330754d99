-- ===== src/Storage/MultiFile/Stream.antt =====
-- storage/multifile.go: the files as one stream of bytes, and single files byte by byte.
use stor.Prelude.{
  ℕ, zero, suc, ◌+◌, ◌-◌, ◌≤◌, ◌<◌, Bool, true, false, if◌then◌else◌, ◌&&◌, ◌||◌, leb, ltb, [], ◌∷◌,
  ◌++◌, List, Option, none, some, ◌≡◌, refl, fun_ext, arith, length, get_or, take, drop, Bool-cases,
  inl, inr, All,
}
use stor.Prelude.Words.{Bytes}
use stor.Bencode.Value.{str_eq}
use stor.Bencode.Order.{str_eq_iff, str_eq-sym}
use stor.Storage.Disk.{Disk, Os, put_file, contents_or_empty, overwrite}
use stor.Storage.MultiFile.{FileEntry, is_open, exists, get_handle}

pub get_or-overwrite :
    (c : Bytes) (k : ℕ) (new : Bytes) (x : ℕ)
    → k + length new ≤ length c
    → get_or (overwrite c k new) x 0
      ≡ (if leb k x && ltb x (k + length new) then get_or new (x - k) 0 else get_or c x 0)
unfolding overwrite
get_or-overwrite [] zero [] x h = ground arith
get_or-overwrite [] zero (n ∷ new) x h = absurd (omega arith)
get_or-overwrite [] (suc k) new x h = absurd (omega arith)
get_or-overwrite (b ∷ c) zero [] x h = ground arith
get_or-overwrite (b ∷ c) zero (n ∷ new) zero h = ground arith
get_or-overwrite (b ∷ c) zero (n ∷ new) (suc x) h = ground (arith, get_or-overwrite c zero new x)
get_or-overwrite (b ∷ c) (suc k) new zero h = ground arith
get_or-overwrite (b ∷ c) (suc k) new (suc x) h = ground (arith, get_or-overwrite c k new x)

pub length-overwrite :
    (c : Bytes) (k : ℕ) (new : Bytes)
    → k + length new ≤ length c
    → length (overwrite c k new) ≡ length c
unfolding overwrite
length-overwrite [] zero [] h = refl
length-overwrite [] zero (n ∷ new) h = absurd (omega arith)
length-overwrite [] (suc k) new h = absurd (omega arith)
length-overwrite (b ∷ c) zero [] h = refl
length-overwrite (b ∷ c) zero (n ∷ new) h = omega (arith, length-overwrite c zero new)
length-overwrite (b ∷ c) (suc k) new h = omega (arith, length-overwrite c k new)

pub get_or-take : (n : ℕ) (c : Bytes) (x : ℕ) → x < n → get_or (take n c) x 0 ≡ get_or c x 0
get_or-take zero c x h = absurd (omega arith)
get_or-take (suc n) [] x h = refl
get_or-take (suc n) (b ∷ c) zero h = refl
get_or-take (suc n) (b ∷ c) (suc x) h = get_or-take n c x (omega arith)

pub get_or-drop : (n : ℕ) (c : Bytes) (x : ℕ) → get_or (drop n c) x 0 ≡ get_or c (n + x) 0
get_or-drop zero c x = let e : 0 + x ≡ x = omega arith in rw e refl
get_or-drop (suc n) [] x = refl
get_or-drop (suc n) (b ∷ c) x =
    let e : suc n + x ≡ suc (n + x) = omega arith in rw e (get_or-drop n c x)

pub get_or-append :
    (c e : Bytes) (x : ℕ)
    → get_or (c ++ e) x 0 ≡ (if ltb x (length c) then get_or c x 0 else get_or e (x - length c) 0)
get_or-append [] e x = ground arith
get_or-append (b ∷ c) e zero = ground arith
get_or-append (b ∷ c) e (suc x) = ground (arith, get_or-append c e x)

pub list_ext :
    (xs ys : Bytes)
    → length xs ≡ length ys
    → ((x : ℕ) → x < length xs → get_or xs x 0 ≡ get_or ys x 0)
    → xs ≡ ys
list_ext [] [] l h = refl
list_ext [] (y ∷ ys) l h = absurd (omega arith)
list_ext (x ∷ xs) [] l h = absurd (omega arith)
list_ext (x ∷ xs) (y ∷ ys) l h =
    let tails : xs ≡ ys = list_ext xs ys (omega arith) (λ i e. h (suc i) (omega arith)) in
    let heads : x ≡ y = h 0 (omega arith) in rw (heads, tails) refl

-- The files one after the other.
abbrev pub on_disk : Disk → FileEntry → Bytes
on_disk d fe = contents_or_empty (d fe.path)

unfoldable pub stream_at : Disk → List FileEntry → ℕ → ℕ
stream_at d [] x = 0
stream_at d (fe ∷ fes) x =
    let rest = stream_at d fes (x - fe.len) in
    if ltb x fe.len then get_or (on_disk d fe) x 0 else rest

unfoldable pub sum_len : List FileEntry → ℕ
sum_len [] = 0
sum_len (fe ∷ fes) = fe.len + sum_len fes

-- Each file begins where the one before ends.
unfoldable pub Laid : ℕ → List FileEntry → Type 0
Laid base [] = Unit
Laid base (fe ∷ fes) = (fe.offset ≡ base) × Laid (base + fe.len) fes

abbrev pub Elsewhere : Bytes → List FileEntry → Type 0
Elsewhere p = All (λ fe. str_eq fe.path p ≡ false)

-- No two files have the same path.
unfoldable pub Apart : List FileEntry → Type 0
Apart [] = Unit
Apart (fe ∷ fes) = Elsewhere fe.path fes × Apart fes

-- Every file exists with its full length.
abbrev pub IsFull : Disk → FileEntry → Type 0
IsFull d fe = (exists (d fe.path) ≡ true) × (length (on_disk d fe) ≡ fe.len)

abbrev pub Ready : Disk → List FileEntry → Type 0
Ready d = All (IsFull d)

-- The system refuses nothing.
pub record Permits (os : Os) : Type 0 where
  pub opens_all : (p : Bytes) → os.opens p ≡ true
  pub takes_all : (p : Bytes) (k n : ℕ) → os.takes p k n ≡ n
  pub truncates_all : (p : Bytes) (n : ℕ) → os.truncates p n ≡ true

filled : (o : Option Bytes) → exists o ≡ true → some (contents_or_empty o) ≡ o
filled none g = ground (arith, g)
filled (some c) g = refl

put_same : (p : Bytes) (d : Disk) → exists (d p) ≡ true → put_file p (contents_or_empty (d p)) d ≡ d
put_same p d h = fun_ext (λ q. elim (Bool-cases (str_eq p q)) [
  | inl e ↦ let same : p ≡ q = (str_eq_iff p q).0 e in rw (e, ← same) (filled (d p) h)
  | inr e ↦ rw e refl
])

-- The handle of a file that exists is opened without changing the disk.
pub get_handle-exists :
    (os : Os) (p : Bytes) (create : Bool) (hs : List Bytes) (d : Disk)
    → Permits os
    → exists (d p) ≡ true
    → (hs' : List Bytes) × (get_handle os p create hs d ≡ some (hs', d))
unfolding get_handle
get_handle-exists os p create hs d ps h = elim (Bool-cases (is_open p hs)) [
  | inl o ↦ (hs, rw o refl)
  | inr o ↦ (
    p ∷ hs,
    let allowed : (os.opens p && (create || exists (d p))) ≡ true =
          ground (arith, ps.opens_all p, h) in
        rw (o, allowed, put_same p d h) refl,
  )
]

-- The files of other paths are as they were.
pub Ready-same :
    (d d' : Disk) (fes : List FileEntry)
    → All (λ fe. d' fe.path ≡ d fe.path) fes
    → Ready d fes
    → Ready d' fes
Ready-same d d' [] e r = tt
Ready-same d d' (fe ∷ fes) e r = ((rw (e.0) (r.0.0), rw (e.0) (r.0.1)), Ready-same d d' fes e.1 r.1)

pub stream_same :
    (d d' : Disk) (fes : List FileEntry) (x : ℕ)
    → All (λ fe. d' fe.path ≡ d fe.path) fes
    → stream_at d' fes x ≡ stream_at d fes x
unfolding stream_at
stream_same d d' [] x e = refl
stream_same d d' (fe ∷ fes) x e = rw (e.0, stream_same d d' fes (x - fe.len) e.1) refl

pub put_file-Elsewhere :
    (d : Disk) (p c : Bytes) (fes : List FileEntry)
    → Elsewhere p fes
    → All (λ fe. put_file p c d fe.path ≡ d fe.path) fes
put_file-Elsewhere d p c [] h = tt
put_file-Elsewhere d p c (fe ∷ fes) h = (
  let e : str_eq p fe.path ≡ false = ground (arith, str_eq-sym p fe.path, h.0) in rw e refl,
  put_file-Elsewhere d p c fes h.1,
)
