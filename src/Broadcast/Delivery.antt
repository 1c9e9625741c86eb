-- ===== src/Broadcast/Delivery.antt =====
-- What a message does to the buffers.
use radio_chatter.Common.{
  ℕ, ◌<◌, ◌≤◌, ◌≡◌, refl, ◌∙◌, List, [], ◌∷◌, ◌==◌, ==_iff, if◌then◌else◌, arith, length, some,
  Bool-cases, inl, inr, dec_lt,
}
use radio_chatter.Broadcast.{Broadcast, update, try_send, send_all, broadcast_message, contains}
use radio_chatter.Broadcast.Counts.{count, contains-count, not-contains-count}
use radio_chatter.Broadcast.Invariant.{closed_bit, buffer, Inv, SameShape, Inv-SameShape}

-- A buffer of one place takes a message only when it is empty.
abbrev pub put {ℓ} : {T : Type ℓ} → T → List T → List T
put msg [] = msg ∷ []
put msg (x ∷ xs) = x ∷ xs

module _ {T : Type 0} where
  try_send-put :
      (msg : T) (id : ℕ) (b : Broadcast T)
      → b.capacity ≡ 1
      → closed_bit b id ≡ 0
      → (b' : Broadcast T) × (try_send msg id b ≡ some b')
        × SameShape b b'
        × ((other : ℕ)
            → buffer b' other ≡ (if other == id then put msg (buffer b id) else buffer b other))
  unfolding try_send
  try_send-put msg id b one live = by_buffer (b.channel id).buffer refl
    where
      by_buffer :
          (buf : List T)
          → (b.channel id).buffer ≡ buf
          → (b' : Broadcast T) × (try_send msg id b ≡ some b')
            × SameShape b b'
            × ((other : ℕ)
                → buffer b' other ≡ (if other == id then put msg (buffer b id) else buffer b other))
      by_buffer [] e = (
        record b { channel = update b.channel id (record (b.channel id) { buffer = msg ∷ [] }) },
        ground arith,
        record {
          listeners_same = refl;
          next_same = refl;
          capacity_same = refl;
          closed_same = λ other. ground (arith, ==_iff other id);
        },
        λ other. ground (arith, ==_iff other id),
      )
      by_buffer (x ∷ xs) e = (
        b,
        ground arith,
        record {
          listeners_same = refl;
          next_same = refl;
          capacity_same = refl;
          closed_same = λ other. refl;
        },
        λ other. ground (arith, ==_iff other id),
      )

  -- What the loop leaves, where no listener stands twice.
  record Delivers (msg : T) (ids : List ℕ) (b b' : Broadcast T) : Type 0 where
    shape : SameShape b b'
    listed : (id : ℕ) → 0 < count id ids → buffer b' id ≡ put msg (buffer b id)
    others : (id : ℕ) → count id ids ≡ 0 → buffer b' id ≡ buffer b id

  send_all-Delivers :
      (msg : T) (ids : List ℕ) (b : Broadcast T)
      → b.capacity ≡ 1
      → ((id : ℕ) → count id ids ≤ 1)
      → ((id : ℕ) → 0 < count id ids → closed_bit b id ≡ 0)
      → (b' : Broadcast T) × (send_all msg ids b ≡ some b') × Delivers msg ids b b'
  unfolding send_all
  send_all-Delivers msg [] b one once live = (
    b,
    refl,
    record {
      shape = record {
        listeners_same = refl;
        next_same = refl;
        capacity_same = refl;
        closed_same = λ other. refl;
      };
      listed = λ id h. absurd (omega arith);
      others = λ id h. refl;
    },
  )
  send_all-Delivers msg (id ∷ ids) b one once live =
      let (mid, e, s, put_mid) = try_send-put msg id b one (live id (ground arith)) in
      let (b', e', d) =
        send_all-Delivers msg ids mid (s.capacity_same ∙ one) (λ other. omega (arith, once other))
          (λ other h. s.closed_same other ∙ live other (omega arith)) in
      (
        b',
        rw (e, send_all) e',
        record {
          shape = record {
            listeners_same = d.shape.listeners_same ∙ s.listeners_same;
            next_same = d.shape.next_same ∙ s.next_same;
            capacity_same = d.shape.capacity_same ∙ s.capacity_same;
            closed_same = λ other. d.shape.closed_same other ∙ s.closed_same other;
          };
          listed = λ other h. elim (Bool-cases (other == id)) [
            | inl same ↦ ground (arith, d.others other, put_mid other, once other, ==_iff other id)
            | inr differ ↦ ground (arith, d.listed other, put_mid other, once other)
          ];
          others = λ other h. ground (arith, d.others other, put_mid other, ==_iff other id);
        },
      )

  put-length : (msg : T) (buf : List T) → length buf ≤ 1 → length (put msg buf) ≤ 1
  put-length msg [] h = omega arith
  put-length msg (x ∷ xs) h = h

  Delivers-small :
      (msg : T) (ids : List ℕ) (b b' : Broadcast T)
      → Delivers msg ids b b'
      → ((id : ℕ) → length (buffer b id) ≤ 1)
      → (id : ℕ) → length (buffer b' id) ≤ 1
  Delivers-small msg ids b b' d small id = elim (dec_lt 0 (count id ids)) [
    | yes h ↦ rw (d.listed id h) (put-length msg (buffer b id) (small id))
    | no h ↦ rw (d.others id (omega arith)) (small id)
  ]

  -- A message never panics. It goes to every listener whose buffer is empty; a listener that still
  -- holds a message keeps that one and misses the new one; no other channel is touched, and the set
  -- of listeners stays as it is.
  pub broadcast_message-delivers :
      (msg : T) (b : Broadcast T)
      → Inv b
      → (b' : Broadcast T) × (broadcast_message msg b ≡ some b')
        × Inv b'
        × SameShape b b'
        × ((id : ℕ)
            → buffer b' id
              ≡ (if contains id b.listeners then put msg (buffer b id) else buffer b id))
  unfolding broadcast_message
  broadcast_message-delivers msg b v =
      let (b', e, d) =
        send_all-Delivers msg b.listeners b v.one_place (λ id. ground (arith, v.accounted id))
          (λ id h. ground (arith, v.accounted id)) in
      let buffers : (id : ℕ)
          → buffer b' id
            ≡ (if contains id b.listeners then put msg (buffer b id) else buffer b id) =
        λ id. elim (Bool-cases (contains id b.listeners)) [
          | inl c ↦ rw c (d.listed id (contains-count id b.listeners c))
          | inr c ↦ rw c (d.others id (not-contains-count id b.listeners c))
        ] in
      (
        b',
        e,
        Inv-SameShape b b' v d.shape (Delivers-small msg b.listeners b b' d v.small),
        d.shape,
        buffers,
      )
