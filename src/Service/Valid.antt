-- ===== src/Service/Valid.antt =====
-- The service buffers hold whole entries: aligned, and within the size of a buffer.
use selenge_muren.Prelude.{
  subst, ℕ, ◌-◌, ◌%◌, ◌≤◌, ◌≡◌, ◌⊎◌, inl, inr, refl, ap, Bool, true, false, Option, none, some,
  List, [], ◌∷◌, ◌++◌, arith, ltb, if◌then◌else◌, length, length-append, length-replicate,
  replicate, Bool-cases,
}
use selenge_muren.Service.{
  SvcBuffer, SvcReply, Service, svc_acquire_new, needs_buffer, Reserved, reserved, refused, no_fuel,
  reserve_loop, put_last, svc_put,
}

-- `mz_used` counts the bytes of whole entries, each a multiple of 8, in a buffer of the pool's size.
pub record IsWhole (capacity : ℕ) (b : SvcBuffer) : Type 0 where
  pub counted : length b.bytes ≡ b.used
  pub aligned : b.used % 8 ≡ 0
  pub fits : b.used ≤ capacity

abbrev pub AllWhole : ℕ → List SvcBuffer → Type 0
AllWhole capacity [] = Unit
AllWhole capacity (b ∷ bs) = IsWhole capacity b × AllWhole capacity bs

-- The other threads keep the buffers whole while a call waits.
abbrev pub AllFair : ℕ → List SvcReply → Type 0
AllFair capacity [] = Unit
AllFair capacity (r ∷ rs) =
    ((bs : List SvcBuffer) → AllWhole capacity bs → AllWhole capacity (r.meanwhile bs))
    × AllFair capacity rs

pub record IsValid (s : Service) : Type 0 where
  pub whole : AllWhole s.capacity s.buffers
  pub fair : AllFair s.capacity s.replies

AllWhole-append :
    (capacity : ℕ) (bs : List SvcBuffer) (b : SvcBuffer)
    → AllWhole capacity bs
    → IsWhole capacity b
    → AllWhole capacity (bs ++ b ∷ [])
AllWhole-append capacity [] b w i = (i, tt)
AllWhole-append capacity (x ∷ bs) b (v, w) i = (v, AllWhole-append capacity bs b w i)

-- A fresh buffer is the last one, and has room for what fits into a buffer.
needs_buffer_fresh :
    (capacity padded addr : ℕ) (bs : List SvcBuffer)
    → padded ≤ capacity
    → needs_buffer capacity padded (bs ++ record { addr = addr; used = 0; bytes = [] } ∷ []) ≡ false
needs_buffer_fresh capacity padded addr [] h = ground arith
needs_buffer_fresh capacity padded addr (b ∷ []) h = ground arith
needs_buffer_fresh capacity padded addr (b ∷ c ∷ bs) h =
    needs_buffer_fresh capacity padded addr (c ∷ bs) h

-- The list that a call finds when it has the buffer.
meanwhile-AllWhole :
    (capacity : ℕ) (wait : Bool) (r : SvcReply) (bs : List SvcBuffer)
    → AllWhole capacity bs
    → ((cs : List SvcBuffer) → AllWhole capacity cs → AllWhole capacity (r.meanwhile cs))
    → AllWhole capacity (if wait then r.meanwhile bs else bs)
meanwhile-AllWhole capacity true r bs w f = f bs w
meanwhile-AllWhole capacity false r bs w f = w

-- What `svc_acquire_new` leaves: whole buffers, and room in the last one if it got one.
abbrev pub Acquires : ℕ → ℕ → Bool × Service → Type 0
Acquires capacity padded (acquired, t) =
    IsValid t
    × (t.capacity ≡ capacity)
    × (acquired ≡ true → needs_buffer t.capacity padded t.buffers ≡ false)

svc_acquire_answer :
    (wait : Bool) (capacity dropped padded : ℕ) (bs : List SvcBuffer) (r : SvcReply)
    (rs : List SvcReply) (answer : Option ℕ)
    → r.answer ≡ answer
    → padded ≤ capacity
    → AllWhole capacity bs
    → AllFair capacity (r ∷ rs)
    → Acquires capacity padded (
        svc_acquire_new wait
          (record { capacity = capacity; buffers = bs; dropped = dropped; replies = r ∷ rs }))
unfolding svc_acquire_new
svc_acquire_answer wait capacity dropped padded bs r rs none e h w (f, fs) =
    simp (e, svc_acquire_new)
      (
        record { whole = meanwhile-AllWhole capacity wait r bs w f; fair = fs },
        refl,
        λ a. absurd (ground arith),
      )
svc_acquire_answer wait capacity dropped padded bs r rs (some addr) e h w (f, fs) =
    simp (e, svc_acquire_new)
      (
        record {
          whole =
              AllWhole-append capacity (if wait then r.meanwhile bs else bs)
                (record { addr = addr; used = 0; bytes = [] })
                (meanwhile-AllWhole capacity wait r bs w f)
                (record { counted = refl; aligned = refl; fits = omega arith });
          fair = fs;
        },
        refl,
        λ a. needs_buffer_fresh capacity padded addr (if wait then r.meanwhile bs else bs) h,
      )

svc_acquire_fields :
    (wait : Bool) (capacity dropped padded : ℕ) (bs : List SvcBuffer) (rs : List SvcReply)
    → padded ≤ capacity
    → AllWhole capacity bs
    → AllFair capacity rs
    → Acquires capacity padded (
        svc_acquire_new wait
          (record { capacity = capacity; buffers = bs; dropped = dropped; replies = rs }))
unfolding svc_acquire_new
svc_acquire_fields wait capacity dropped padded bs [] h w f =
    (record { whole = w; fair = tt }, refl, λ a. absurd (ground arith))
svc_acquire_fields wait capacity dropped padded bs (r ∷ rs) h w f =
    svc_acquire_answer wait capacity dropped padded bs r rs r.answer refl h w f

pub svc_acquire_new-Acquires :
    (wait : Bool) (s : Service) (padded : ℕ)
    → padded ≤ s.capacity
    → IsValid s
    → Acquires s.capacity padded (svc_acquire_new wait s)
svc_acquire_new-Acquires wait s padded h v =
    svc_acquire_fields wait s.capacity s.dropped padded s.buffers s.replies h v.whole v.fair

-- `svc_reserve` ends, since it asks the pool once at most, and leaves whole buffers; if it got room,
-- the last one has it.
abbrev pub Reserves : ℕ → ℕ → Reserved → Type 0
Reserves capacity padded (reserved t) =
    IsValid t × (t.capacity ≡ capacity) × (needs_buffer t.capacity padded t.buffers ≡ false)
Reserves capacity padded (refused t) = IsValid t × (t.capacity ≡ capacity)
Reserves capacity padded no_fuel = ⊥

pub reserve_loop-Reserves :
    (wait : Bool) (padded : ℕ) (s : Service)
    → padded ≤ s.capacity
    → IsValid s
    → Reserves s.capacity padded (reserve_loop 2 wait padded s)
unfolding reserve_loop
reserve_loop-Reserves wait padded s h v =
    let (valid, same, room) = svc_acquire_new-Acquires wait s padded h v in
    elim (Bool-cases (needs_buffer s.capacity padded s.buffers)) [
      | inr e ↦ rw (e, reserve_loop) (v, refl, e)
      | inl e ↦ elim (Bool-cases (svc_acquire_new wait s).0) [
        | inr a ↦ rw (e, a, reserve_loop) (valid, same)
        | inl a ↦ rw (e, a, reserve_loop, room a) (valid, same, room a)
      ]
    ]

put_last-AllWhole :
    (capacity padded : ℕ) (entry : List ℕ) (bs : List SvcBuffer)
    → AllWhole capacity bs
    → needs_buffer capacity padded bs ≡ false
    → length entry ≤ padded
    → padded % 8 ≡ 0
    → AllWhole capacity (put_last padded entry bs)
put_last-AllWhole capacity padded entry [] w e l a = tt
put_last-AllWhole capacity padded entry (b ∷ []) (i, w) e l a = (
  record {
    counted = omega (
      arith,
      i.counted,
      length-append b.bytes (entry ++ replicate (padded - length entry) 0),
      length-append entry (replicate (padded - length entry) 0),
      length-replicate {A = ℕ} (padded - length entry) 0,
    );
    aligned = omega (arith, i.aligned);
    fits = ground arith;
  },
  tt,
)
put_last-AllWhole capacity padded entry (b ∷ c ∷ bs) (i, w) e l a =
    (i, put_last-AllWhole capacity padded entry (c ∷ bs) w e l a)

pub Reserved-cases :
    (r : Reserved)
    → ((t : Service) × (r ≡ reserved t)) ⊎ (((t : Service) × (r ≡ refused t)) ⊎ (r ≡ no_fuel))
Reserved-cases (reserved t) = inl (t, refl)
Reserved-cases (refused t) = inr (inl (t, refl))
Reserved-cases no_fuel = inr (inr refl)

-- What `svc_put` promises: whole buffers, and if it reports true, the entry with its padding is the end
-- of the last buffer.
abbrev pub Puts : ℕ → ℕ → List ℕ → Bool × Service → Type 0
Puts capacity padded entry (put, t) =
    IsValid t
    × (t.capacity ≡ capacity)
    × (put ≡ true
        → (before : List SvcBuffer) × (b : SvcBuffer) × (t.buffers ≡ before ++ b ∷ [])
          × (old : List ℕ) × (b.bytes ≡ old ++ (entry ++ replicate (padded - length entry) 0)))

put_last_lem :
    (capacity padded : ℕ) (entry : List ℕ) (bs : List SvcBuffer)
    → needs_buffer capacity padded bs ≡ false
    → (before : List SvcBuffer) × (b : SvcBuffer) × (put_last padded entry bs ≡ before ++ b ∷ [])
      × (old : List ℕ) × (b.bytes ≡ old ++ (entry ++ replicate (padded - length entry) 0))
put_last_lem capacity padded entry [] e = absurd (ground arith)
put_last_lem capacity padded entry (b ∷ []) e = ([], _, refl, b.bytes, refl)
put_last_lem capacity padded entry (b ∷ c ∷ bs) e =
    let (before, d, same, old, rest) = put_last_lem capacity padded entry (c ∷ bs) e in
    (b ∷ before, d, ap (◌∷◌ b) same, old, rest)

-- For an entry that is not longer than its padded size, a multiple of 8, whether it is put or dropped.
pub svc_put-Puts :
    (wait : Bool) (padded : ℕ) (entry : List ℕ) (s : Service)
    → length entry ≤ padded
    → padded % 8 ≡ 0
    → IsValid s
    → Puts s.capacity padded entry (svc_put wait padded entry s)
unfolding svc_put
svc_put-Puts wait padded entry s l a v = elim (Bool-cases (ltb s.capacity padded)) [
  | inl e ↦ rw (e, svc_put) (v, refl, λ p. absurd (ground arith))
  | inr e ↦
      let done = reserve_loop-Reserves wait padded s (ground arith) v in
      elim (Reserved-cases (reserve_loop 2 wait padded s)) [
        | inl (t, r) ↦
            let (valid, same, room) = subst (Reserves s.capacity padded) r done in
            rw (e, r, svc_put)
              (
                record {
                  whole = put_last-AllWhole t.capacity padded entry t.buffers valid.whole room l a;
                  fair = valid.fair;
                },
                same,
                λ p. put_last_lem t.capacity padded entry t.buffers room,
              )
        | inr (inl (t, r)) ↦
            let (valid, same) = subst (Reserves s.capacity padded) r done in
            rw (e, r, svc_put) (valid, same, λ p. absurd (ground arith))
        | inr (inr r) ↦ absurd (subst (Reserves s.capacity padded) r done)
      ]
]
