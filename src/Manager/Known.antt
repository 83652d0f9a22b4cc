-- ===== src/Manager/Known.antt =====
-- The keys over which `processAck` moves its iterators, and what it needs of the ranges there.
use analyse_tcp.Prelude.{
  ℕ, ◌<◌, ◌≡◌, refl, sym, ◌≢◌, ◌⊎◌, ltb, ◌==◌, none, some, Option, List, [], ◌∷◌, arith, Bool-cases,
  inl, inr, get_elem?,
}
use analyse_tcp.Time.{Timeval}
use analyse_tcp.Range.{ByteRange, SentType}
use analyse_tcp.RangeMap.{RangeMap, find, set}
use analyse_tcp.RangeMap.Order.{Disjoint, beyond}
use analyse_tcp.Manager.Ack.{keys_before, keys_from}

-- The search for a FIN ends at this range.
abbrev pub EndsSearch : ByteRange → Type 0
EndsSearch br = (br.fin ≢ 0) ⊎ (br.packet_sent_count ≡ br.data_sent_count)

-- Each range lists a packet that was sent.
unfoldable pub AllSent : RangeMap → Type 0
AllSent [] = Unit {0}
AllSent ((k, br) ∷ m) =
    ((t : Timeval × SentType) × (get_elem? br.sent_tstamp_pcap 0 ≡ some t)) × AllSent m

-- The first range ends the search for a FIN.
unfoldable pub StartsWell : RangeMap → Type 0
StartsWell [] = Unit {0}
StartsWell ((k, br) ∷ m) = EndsSearch br

-- Each key is in the map.
unfoldable pub Known : RangeMap → List ℕ → Type 0
Known m [] = Unit {0}
Known m (k ∷ ks) = ((br : ByteRange) × (find k m ≡ some br)) × Known m ks

-- The keys are in the map, and the range of the last one ends the search for a FIN.
unfoldable pub Stops : RangeMap → List ℕ → Type 0
unfolding Known
Stops m [] = ⊥
Stops m (k ∷ []) = (br : ByteRange) × (find k m ≡ some br) × EndsSearch br
Stops m (k ∷ j ∷ ks) = ((br : ByteRange) × (find k m ≡ some br)) × Stops m (j ∷ ks)

pub Stops-Known : (m : RangeMap) (ks : List ℕ) → Stops m ks → Known m ks
unfolding Known Stops
Stops-Known m [] s = tt
Stops-Known m (k ∷ []) (br, f, e) = ((br, f), tt)
Stops-Known m (k ∷ j ∷ ks) (f, s) = (f, Stops-Known m (j ∷ ks) s)

-- The entries are those that the whole map gives for their keys.
unfoldable Entries : RangeMap → RangeMap → Type 0
Entries whole [] = Unit {0}
Entries whole ((k, br) ∷ m) = (find k whole ≡ some br) × Entries whole m

Entries-cons :
    (k lo : ℕ) (br : ByteRange) (whole m : RangeMap)
    → k < lo
    → Disjoint lo m
    → Entries whole m
    → Entries ((k, br) ∷ whole) m
unfolding Entries find
Entries-cons k lo br whole [] le d e = tt
Entries-cons k lo br whole ((j, c) ∷ m) le d (f, e) =
    (ground (arith, f), Entries-cons k (beyond j c) br whole m (omega arith) d.3 e)

Disjoint-Entries : (lo : ℕ) (m : RangeMap) → Disjoint lo m → Entries m m
unfolding Entries find
Disjoint-Entries lo [] d = tt
Disjoint-Entries lo ((k, br) ∷ m) d = (
  ground arith,
  Entries-cons k (beyond k br) br m m (omega arith) d.3 (Disjoint-Entries (beyond k br) m d.3),
)

keys_from-Known : (k : ℕ) (whole m : RangeMap) → Entries whole m → Known whole (keys_from k m)
unfolding keys_from Known Entries
keys_from-Known k whole [] e = tt
keys_from-Known k whole ((j, br) ∷ m) (f, e) =
    let rest = keys_from-Known k whole m e in
    elim (Bool-cases (ltb j k)) [ inl l ↦ rw l rest | inr l ↦ rw l ((br, f), rest) ]

Stops-cons :
    (m : RangeMap) (k : ℕ) (br : ByteRange) (ks : List ℕ)
    → find k m ≡ some br
    → Stops m ks
    → Stops m (k ∷ ks)
unfolding Stops
Stops-cons m k br [] f s = elim s [ ]
Stops-cons m k br (j ∷ ks) f s = ((br, f), s)

keys_before-Stops :
    (k : ℕ) (whole m : RangeMap) (seen : List ℕ)
    → Entries whole m
    → Stops whole seen
    → Stops whole (keys_before k m seen)
unfolding Entries
keys_before-Stops k whole [] seen e s = s
keys_before-Stops k whole ((j, br) ∷ m) seen (f, e) s =
    let rest = keys_before-Stops k whole m (j ∷ seen) e (Stops-cons whole j br seen f s) in
    elim (Bool-cases (ltb j k)) [ inl l ↦ rw l rest | inr l ↦ rw l s ]

-- The ranges before a key, the last one first.
pub before-Stops :
    (k : ℕ) (m : RangeMap)
    → Disjoint 0 m
    → StartsWell m
    → (keys_before k m [] ≡ []) ⊎ Stops m (keys_before k m [])
unfolding StartsWell Stops Entries
before-Stops k [] d s = inl refl
before-Stops k ((j, br) ∷ m) d s =
    let (f, e) = Disjoint-Entries 0 ((j, br) ∷ m) d in
    elim (Bool-cases (ltb j k)) [
      | inl l ↦ rw l (inr (keys_before-Stops k ((j, br) ∷ m) m (j ∷ []) e (br, f, s)))
      | inr l ↦ rw l (inl refl)
    ]

find-set-known :
    (j k : ℕ) (v br : ByteRange) (m : RangeMap)
    → find j m ≡ some br
    → (w : ByteRange) × (find j (set k v m) ≡ some w)
unfolding find set
find-set-known j k v br [] f = cc
find-set-known j k v br ((i, c) ∷ m) f = elim (Bool-cases (i == k)) [
  | inl h ↦
      rw h (elim (Bool-cases (i == j)) [ inl g ↦ (v, rw g refl) | inr g ↦ (br, ground arith) ])
  | inr h ↦ rw h (elim (Bool-cases (i == j)) [
    | inl g ↦ (c, rw g refl)
    | inr g ↦ let (w, found) = find-set-known j k v br m (ground arith) in (w, rw g found)
  ])
]

pub Known-set :
    (k : ℕ) (v : ByteRange) (m : RangeMap) (ks : List ℕ) → Known m ks → Known (set k v m) ks
unfolding Known
Known-set k v m [] h = tt
Known-set k v m (j ∷ ks) ((br, f), h) = (find-set-known j k v br m f, Known-set k v m ks h)

pub AllSent-find :
    (k : ℕ) (br : ByteRange) (m : RangeMap)
    → AllSent m
    → find k m ≡ some br
    → (t : Timeval × SentType) × (get_elem? br.sent_tstamp_pcap 0 ≡ some t)
unfolding AllSent find
AllSent-find k br [] s f = cc
AllSent-find k br ((j, c) ∷ m) (t, s) f = elim (Bool-cases (j == k)) [
  | inl e ↦ ground (arith, t)
  | inr e ↦ AllSent-find k br m s (ground arith)
]

pub AllSent-set :
    (k : ℕ) (br v : ByteRange) (m : RangeMap)
    → AllSent m
    → find k m ≡ some br
    → v.sent_tstamp_pcap ≡ br.sent_tstamp_pcap
    → AllSent (set k v m)
unfolding AllSent find set
AllSent-set k br v [] s f e = tt
AllSent-set k br v ((j, c) ∷ m) (t, s) f e = elim (Bool-cases (j == k)) [
  | inl h ↦ let same : c ≡ br = ground arith in rw h ((t.0, rw (e, sym same) t.1), s)
  | inr h ↦ rw h (t, AllSent-set k br v m s (ground arith) e)
]

EndsSearch-same :
    (br v : ByteRange)
    → EndsSearch br
    → (v.fin ≡ br.fin)
      × (v.packet_sent_count ≡ br.packet_sent_count)
      × (v.data_sent_count ≡ br.data_sent_count)
    → EndsSearch v
EndsSearch-same br v s e = ground (arith, s, e)

pub StartsWell-set :
    (k : ℕ) (br v : ByteRange) (m : RangeMap)
    → StartsWell m
    → find k m ≡ some br
    → (v.fin ≡ br.fin)
      × (v.packet_sent_count ≡ br.packet_sent_count)
      × (v.data_sent_count ≡ br.data_sent_count)
    → StartsWell (set k v m)
unfolding StartsWell find set
StartsWell-set k br v [] s f e = tt
StartsWell-set k br v ((j, c) ∷ m) s f e = elim (Bool-cases (j == k)) [
  | inl h ↦ let same : c ≡ br = ground arith in rw h (EndsSearch-same c v s (rw same e))
  | inr h ↦ rw h s
]

keys_from-found : (k : ℕ) (br : ByteRange) (m : RangeMap) → find k m ≡ some br → keys_from k m ≢ []
unfolding keys_from find
keys_from-found k br [] f e = cc
keys_from-found k br ((j, c) ∷ m) f e = ground (arith, keys_from-found k br m)

pub keys-NonEmpty :
    (h : Option ℕ) (m : RangeMap)
    → (elim h as (λ _. Type 0) [ none ↦ m ≢ [] | some k ↦ (br : ByteRange) × (find k m ≡ some br) ])
    → (elim h [ none ↦ keys_from 0 m | some k ↦ keys_from k m ]) ≢ []
unfolding keys_from
keys-NonEmpty none [] t e = elim (t refl) [ ]
keys-NonEmpty none ((j, c) ∷ m) t e = ground arith
keys-NonEmpty (some k) m (br, f) e = keys_from-found k br m f e

pub keys-Known :
    (h : Option ℕ) (m : RangeMap)
    → Disjoint 0 m
    → Known m (elim h [ none ↦ keys_from 0 m | some k ↦ keys_from k m ])
keys-Known none m d = keys_from-Known 0 m m (Disjoint-Entries 0 m d)
keys-Known (some k) m d = keys_from-Known k m m (Disjoint-Entries 0 m d)
