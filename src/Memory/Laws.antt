-- ===== src/Memory/Laws.antt =====
-- What a word written to the simulated memory reads back as, at the same address and at others.
use simple_cpu.Base.{
  ℕ, suc, ◌+◌, ◌*◌, ◌/◌, ◌%◌, ◌^◌, ◌≤◌, ◌<◌, ◌≡◌, ◌≢◌, ◌⊎◌, ◌↔◌, inl, inr, arith, none, some, List,
  [], ◌∷◌, bit_or, bit_and_mask, bit_or_fields, Bool-cases, Option-cases, update, ltb, lt→ltb,
  ltb→lt, ap, ==_refl,
}
use simple_cpu.Memory.{
  Region, Place, Store, in_region, locate, load_word, store_word, put_bytes, mem_read_32,
  mem_write_32,
}

-- Every byte of the store fits a `uint8_t`.
abbrev pub IsBytes : Store → Type 0
IsBytes m = (r o : ℕ) → m r o < 256

-- The word whose bytes stand at `o` to `o + 3` of a block, lowest first.
abbrev pub word_at : (ℕ → ℕ) → ℕ → ℕ
word_at b o = b (o + 3) * 2 ^ 24 + b (o + 2) * 2 ^ 16 + b (o + 1) * 2 ^ 8 + b o

load_bytes :
    (a b c d : ℕ)
    → a < 256
    → b < 256
    → c < 256
    → d < 256
    → bit_or
        (bit_or (bit_or (a * 2 ^ 24 % 2 ^ 32) (b * 2 ^ 16 % 2 ^ 32)) (c * 2 ^ 8 % 2 ^ 32))
        (d * 2 ^ 0 % 2 ^ 32)
      ≡ a * 2 ^ 24 + b * 2 ^ 16 + c * 2 ^ 8 + d
load_bytes a b c d ha hb hc hd = ground (
  arith,
  bit_or_fields 24 a (b * 2 ^ 16) (omega arith),
  bit_or_fields 16 (a * 2 ^ 8 + b) (c * 2 ^ 8) (omega arith),
  bit_or_fields 8 (a * 2 ^ 16 + b * 2 ^ 8 + c) d (omega arith),
)

put_bytes-word : (b : ℕ → ℕ) (o v : ℕ) → v < 2 ^ 32 → word_at (put_bytes b o v) o ≡ v
unfolding put_bytes
put_bytes-word b o v h = ground (
  arith,
  bit_and_mask 8 (v / 2 ^ 24),
  bit_and_mask 8 (v / 2 ^ 16),
  bit_and_mask 8 (v / 2 ^ 8),
  bit_and_mask 8 v,
)

put_bytes-apart : (b : ℕ → ℕ) (o v i : ℕ) → (i < o) ⊎ (o + 3 < i) → put_bytes b o v i ≡ b i
unfolding put_bytes
put_bytes-apart b o v i h = ground arith

put_bytes-lt : (b : ℕ → ℕ) (o v i : ℕ) → b i < 256 → put_bytes b o v i < 256
unfolding put_bytes
put_bytes-lt b o v i h = ground (
  arith,
  bit_and_mask 8 (v / 2 ^ 24),
  bit_and_mask 8 (v / 2 ^ 16),
  bit_and_mask 8 (v / 2 ^ 8),
  bit_and_mask 8 v,
)

-- Where a load succeeds it gives the word that stands there.
load_word_lem :
    (m : Store) (p : Place)
    → IsBytes m
    → p.offset + 3 < p.size
    → load_word m p ≡ some (word_at (m p.region) p.offset)
unfolding load_word
load_word_lem m p w h =
    rw
      (
        lt→ltb _ _ h,
        load_bytes (m p.region (p.offset + 3)) (m p.region (p.offset + 2))
            (m p.region (p.offset + 1)) (m p.region (p.offset + 0)) (w _ _) (w _ _) (w _ _) (w _ _),
      )
      (ap
        (λ (t : ℕ). some (
          m p.region (p.offset + 3) * 2 ^ 24
          + m p.region (p.offset + 2) * 2 ^ 16
          + m p.region (p.offset + 1) * 2 ^ 8
          + m p.region t))
        (omega arith))

load_word-lt : (m : Store) (p : Place) (v : ℕ) → IsBytes m → load_word m p ≡ some v → v < 2 ^ 32
unfolding load_word
load_word-lt m p v w e = elim (Bool-cases (ltb (p.offset + 3) p.size)) [
  | inl fits ↦
      let found : word_at (m p.region) p.offset ≡ v =
        cc (load_word_lem m p w (ltb→lt _ _ fits), e) in
      omega (
        arith,
        found,
        w p.region p.offset,
        w p.region (p.offset + 1),
        w p.region (p.offset + 2),
        w p.region (p.offset + 3),
      )
  | inr out ↦ ground arith
]

-- Where a store succeeds, the place lies in its block, and this is the store afterwards.
store_word-eq-some :
    (m m' : Store) (p : Place) (v : ℕ)
    → store_word m p v ≡ some m'
    → (p.offset + 3 < p.size) × (m' ≡ update m p.region (put_bytes (m p.region) p.offset v))
unfolding store_word
store_word-eq-some m m' p v e = ground arith

store_word-IsBytes :
    (m m' : Store) (p : Place) (v : ℕ) → IsBytes m → store_word m p v ≡ some m' → IsBytes m'
store_word-IsBytes m m' p v w e r o =
    rw (store_word-eq-some m m' p v e).1
      (ground (arith, put_bytes-lt (m p.region) p.offset v o (w _ _), w r o))

load-store_same :
    (m m' : Store) (p : Place) (v : ℕ)
    → IsBytes m
    → v < 2 ^ 32
    → store_word m p v ≡ some m'
    → load_word m' p ≡ some v
load-store_same m m' p v w small e =
    let (fits, after) = store_word-eq-some m m' p v e in
    let whole : word_at (m' p.region) p.offset ≡ v =
      rw after (rw ==_refl (put_bytes-word (m p.region) p.offset v small)) in
    rw (load_word_lem m' p (store_word-IsBytes m m' p v w e) fits) (ap some whole)

byte-store_apart :
    (m m' : Store) (p : Place) (v r o : ℕ)
    → store_word m p v ≡ some m'
    → (p.region ≡ r → (o < p.offset) ⊎ (p.offset + 3 < o))
    → m' r o ≡ m r o
byte-store_apart m m' p v r o e h =
    rw (store_word-eq-some m m' p v e).1 (ground (arith, put_bytes-apart (m p.region) p.offset v o))

load-store_apart :
    (m m' : Store) (p q : Place) (v : ℕ)
    → store_word m p v ≡ some m'
    → (p.region ≡ q.region → (q.offset + 4 ≤ p.offset) ⊎ (p.offset + 4 ≤ q.offset))
    → load_word m' q ≡ load_word m q
unfolding load_word
load-store_apart m m' p q v e h = ground (
  arith,
  byte-store_apart m m' p v q.region (q.offset + 3) e (λ g. ground (arith, h g)),
  byte-store_apart m m' p v q.region (q.offset + 2) e (λ g. ground (arith, h g)),
  byte-store_apart m m' p v q.region (q.offset + 1) e (λ g. ground (arith, h g)),
  byte-store_apart m m' p v q.region (q.offset + 0) e (λ g. ground (arith, h g)),
)

-- The index that the search finds is not below the one it starts from.
locate-ge : (rs : List Region) (i a : ℕ) (p : Place) → locate rs i a ≡ some p → i ≤ p.region
unfolding locate
locate-ge [] i a p e = ground arith
locate-ge (r ∷ rs) i a p e = ground (arith, locate-ge rs (suc i) a p)

-- Two addresses of one region keep their distance there.
locate_distance :
    (rs : List Region) (i a b : ℕ) (p q : Place)
    → locate rs i a ≡ some p
    → locate rs i b ≡ some q
    → p.region ≡ q.region
    → (p.offset + b ≡ q.offset + a) × (p.size ≡ q.size)
unfolding locate in_region
locate_distance [] i a b p q e f g = ground arith
locate_distance (r ∷ rs) i a b p q e f g =
    ground (
      arith,
      locate-ge rs (suc i) a p,
      locate-ge rs (suc i) b q,
      locate_distance rs (suc i) a b p q,
    )

module _ (rs : List Region) where
  -- Some region has the address.
  abbrev pub IsMapped : ℕ → Type 0
  IsMapped a = locate rs 0 a ≢ none

  -- The two words have no byte in common.
  abbrev pub Apart : ℕ → ℕ → Type 0
  Apart a b = (a + 4 ≤ b) ⊎ (b + 4 ≤ a)

  module _ (m m' : Store) (a v : ℕ) (w : IsBytes m) (e : mem_write_32 rs m a v ≡ some m') where
    pub mem_write_32-IsBytes : IsBytes m'
    unfolding mem_write_32
    mem_write_32-IsBytes = elim (Option-cases (locate rs 0 a)) [
      | inl out ↦ ground arith
      | inr (p, at) ↦ store_word-IsBytes m m' p v w (ground arith)
    ]

    -- A word below 2 ^ 32 that is written to an address of some region reads back from it, where
    -- the store holds bytes and the write succeeds.
    pub read-write : v < 2 ^ 32 → IsMapped a → mem_read_32 rs m' a ≡ some v
    unfolding mem_read_32 mem_write_32
    read-write small mapped = elim (Option-cases (locate rs 0 a)) [
      | inl out ↦ absurd (mapped out)
      | inr (p, at) ↦ rw (at, mem_read_32) (load-store_same m m' p v w small (ground arith))
    ]

    -- After a write that succeeds, every word that shares no byte with the one written reads as
    -- before, whether its address lies in the same region, in another one or in none.
    pub read-write-Apart : (b : ℕ) → Apart a b → mem_read_32 rs m' b ≡ mem_read_32 rs m b
    unfolding mem_read_32 mem_write_32
    read-write-Apart b apart = elim (Option-cases (locate rs 0 a)) [
      | inl out ↦ ground arith
      | inr (p, at) ↦ elim (Option-cases (locate rs 0 b)) [
        | inl out ↦ ground arith
        | inr (q, bt) ↦
            rw (bt, mem_read_32)
              (load-store_apart m m' p q v (ground arith)
                (λ g. ground (arith, locate_distance rs 0 a b p q at bt g)))
      ]
    ]

  -- The load of a word gives a word.
  pub mem_read_32-lt : (m : Store) (a v : ℕ) → IsBytes m → mem_read_32 rs m a ≡ some v → v < 2 ^ 32
  unfolding mem_read_32 load_word
  mem_read_32-lt m a v w e = elim (Option-cases (locate rs 0 a)) [
    | inl out ↦ ground arith
    | inr (p, at) ↦ load_word-lt m p v w (ground arith)
  ]

  -- A load and a store at one address both stay within their block, or both leave it.
  pub mem_read_32-eq-none_iff :
      (m : Store) (a v : ℕ) → (mem_read_32 rs m a ≡ none) ↔ (mem_write_32 rs m a v ≡ none)
  unfolding mem_read_32 mem_write_32 load_word store_word
  mem_read_32-eq-none_iff m a v = ground arith
