-- ===== src/Dump/OptionBytes.antt =====
-- The bytes of options: words in network order, and where they lie.
use analyse_tcp.Prelude.{
  ℕ, zero, suc, ◌+◌, ◌*◌, ◌/◌, ◌%◌, ◌<◌, ◌≡◌, ◌≢◌, refl, ap, ◌∙◌, sym, List, [], ◌∷◌, ◌++◌, length,
  length-append, append_assoc, get_elem?, arith, Result, ok, err, ◌>>=◌,
}
use analyse_tcp.Words.{u32_mod}
use analyse_tcp.Range.{DataSeg}
use analyse_tcp.Dump.Options.{stop, onward, read8, read32}
use analyse_tcp.Dump.OptionList.{
  TcpOption, nop, timestamps, one_sack, two_sacks, other, word_bytes, encode, kind_of, size_of,
  IsOption,
}

pub get_elem?-behind :
    (before l : List ℕ) (i j : ℕ)
    → j ≡ length before + i
    → get_elem? (before ++ l) j ≡ get_elem? l i
get_elem?-behind [] l i j e = rw e (ap (get_elem? l) (omega arith))
get_elem?-behind (b ∷ before) l i zero e = ground arith
get_elem?-behind (b ∷ before) l i (suc j) e = get_elem?-behind before l i j (omega arith)

pub word-bytes :
    (w : ℕ)
    → w < u32_mod
    → (w / 16777216) * 16777216 + ((w / 65536) % 256) * 65536 + ((w / 256) % 256) * 256 + w % 256
      ≡ w
word-bytes w h = omega arith

-- A word at a place of the options, `skip` bytes behind what was read.
pub read32-word_bytes :
    (before head rest : List ℕ) (w skip i : ℕ)
    → w < u32_mod
    → skip ≡ length head
    → i ≡ length before + skip
    → read32 (before ++ (head ++ word_bytes w rest)) i ≡ ok w
unfolding read32
read32-word_bytes before head rest w skip i h es e =
    let l = word_bytes w rest in
    let at : (n j : ℕ) → j ≡ i + n → get_elem? (before ++ (head ++ l)) j ≡ get_elem? l n = λ n j ej.
      get_elem?-behind before (head ++ l) (skip + n) j (omega arith)
      ∙ get_elem?-behind head l n (skip + n) (omega arith) in
    rw (at 0 i (omega arith), at 1 (i + 1) refl, at 2 (i + 2) refl, at 3 (i + 3) refl)
      (ap ok (word-bytes w h))

pub >>=-ok : {A : Type 0} (r : Result A) → (r >>= ok) ≡ r
>>=-ok (err f) = refl
>>=-ok (ok a) = refl

pub ap-bind :
    {A B : Type 0} (r : Result A) (f g : A → Result B)
    → ((a : A) → f a ≡ g a)
    → (r >>= f) ≡ (r >>= g)
ap-bind (err e) f g h = refl
ap-bind (ok a) f g h = h a

-- The bytes of an option alone.
abbrev pub bytes_of : TcpOption → List ℕ
bytes_of o = encode o []

pub encode-bytes_of : (o : TcpOption) (rest : List ℕ) → encode o rest ≡ bytes_of o ++ rest
encode-bytes_of nop rest = refl
encode-bytes_of (timestamps v e) rest = refl
encode-bytes_of (one_sack l r) rest = refl
encode-bytes_of (two_sacks l r k s) rest = refl
encode-bytes_of (other kind body) rest =
    ap (λ l. kind ∷ (length body + 2) ∷ l) (sym (append_assoc body [] rest))

pub bytes_of-length : (o : TcpOption) → length (bytes_of o) ≡ size_of o
bytes_of-length nop = refl
bytes_of-length (timestamps v e) = refl
bytes_of-length (one_sack l r) = refl
bytes_of-length (two_sacks l r k s) = refl
bytes_of-length (other kind body) = omega (arith, length-append body [])

pub size_of-positive : (o : TcpOption) → 0 < size_of o
size_of-positive nop = omega arith
size_of-positive (timestamps v e) = omega arith
size_of-positive (one_sack l r) = omega arith
size_of-positive (two_sacks l r k s) = omega arith
size_of-positive (other kind body) = omega arith

pub bind-onward :
    (r : Result DataSeg) (at : ℕ) (loop : ℕ → DataSeg → Result DataSeg)
    (f : DataSeg → Result DataSeg)
    → ((s : DataSeg) → loop at s ≡ f s)
    → ((r >>= λ s. ok (onward at s)) >>= λ o. elim o as (λ _. Result DataSeg) [
      | stop s ↦ ok s
      | onward to s ↦ loop to s
    ])
      ≡ (r >>= f)
bind-onward (err e) at loop f h = refl
bind-onward (ok s) at loop f h = h s

pub first-kind : (o : TcpOption) (rest : List ℕ) → read8 (encode o rest) 0 ≡ ok (kind_of o)
first-kind nop rest = refl
first-kind (timestamps v e) rest = refl
first-kind (one_sack l r) rest = refl
first-kind (two_sacks l r k s) rest = refl
first-kind (other kind body) rest = refl

pub kind-nonzero : (o : TcpOption) → IsOption o → kind_of o ≢ 0
kind-nonzero nop h = omega arith
kind-nonzero (timestamps v e) h = omega arith
kind-nonzero (one_sack l r) h = omega arith
kind-nonzero (two_sacks l r k s) h = omega arith
kind-nonzero (other kind body) h = h.0
