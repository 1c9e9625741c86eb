-- ===== src/Broadcast/Invariant.antt =====
-- The invariant of the broadcast, and the methods under it.
use radio_chatter.Common.{
  ℕ, ◌+◌, ◌<◌, ◌≤◌, ◌≡◌, refl, ◌∙◌, true, List, [], ◌∷◌, ==_iff, ltb, if◌then◌else◌, arith, length,
  some, Bool-cases, inl, inr,
}
use radio_chatter.Broadcast.{
  Broadcast, update, new_broadcast, subscribe, close, close_all, clear, swap_remove, contains,
  unregister, receive,
}
use radio_chatter.Broadcast.Counts.{
  count, count-append, count-swap_remove, contains-count, not-contains-count,
}

module _ {T : Type 0} where
  -- Whether a channel is closed, as a number.
  abbrev pub closed_bit : Broadcast T → ℕ → ℕ
  closed_bit b id = if (b.channel id).closed then 1 else 0

  abbrev pub buffer : Broadcast T → ℕ → List T
  buffer b id = (b.channel id).buffer

  pub record Inv (b : Broadcast T) : Type 0 where
    pub one_place : b.capacity ≡ 1
    pub accounted :
        (id : ℕ) → count id b.listeners + closed_bit b id ≡ (if ltb id b.next then 1 else 0)
    pub small : (id : ℕ) → length (buffer b id) ≤ 1

  -- What the sends and the receives leave alone.
  pub record SameShape (b b' : Broadcast T) : Type 0 where
    pub listeners_same : b'.listeners ≡ b.listeners
    pub next_same : b'.next ≡ b.next
    pub capacity_same : b'.capacity ≡ b.capacity
    pub closed_same : (id : ℕ) → closed_bit b' id ≡ closed_bit b id

  pub new_broadcast-Inv : Inv new_broadcast
  new_broadcast-Inv = record {
    one_place = refl;
    accounted = λ id. ground arith;
    small = λ id. omega arith;
  }

  pub subscribe-Inv : (b : Broadcast T) → Inv b → Inv (subscribe b).0
  unfolding subscribe
  subscribe-Inv b v = record {
    one_place = v.one_place;
    accounted = λ id. ground (arith, v.accounted id, count-append id b.listeners (b.next ∷ []));
    small = λ id. ground (arith, v.small id);
  }

  pub Inv-SameShape :
      (b b' : Broadcast T)
      → Inv b
      → SameShape b b'
      → ((id : ℕ) → length (buffer b' id) ≤ 1)
      → Inv b'
  Inv-SameShape b b' v s small = record {
    one_place = s.capacity_same ∙ v.one_place;
    accounted = λ id. rw (s.listeners_same, s.next_same, s.closed_same id) (v.accounted id);
    small = small;
  }

  pub receive-SameShape : (id : ℕ) (b : Broadcast T) → SameShape b (receive id b).0
  unfolding receive
  receive-SameShape id b = record {
    listeners_same = ground arith;
    next_same = ground arith;
    capacity_same = ground arith;
    closed_same = λ other. ground (arith, ==_iff other id);
  }

  pub receive-Inv : (id : ℕ) (b : Broadcast T) → Inv b → Inv (receive id b).0
  receive-Inv id b v =
      Inv-SameShape b (receive id b).0 v (receive-SameShape id b)
        (λ other. unfold receive in ground (arith, v.small other, v.small id, ==_iff other id))

  -- Closing channels that are open, each at most once.
  pub record Closes (ids : List ℕ) (b b' : Broadcast T) : Type 0 where
    pub listeners_same : b'.listeners ≡ b.listeners
    pub next_same : b'.next ≡ b.next
    pub capacity_same : b'.capacity ≡ b.capacity
    pub closed_now : (id : ℕ) → closed_bit b' id ≡ count id ids + closed_bit b id
    pub buffer_same : (id : ℕ) → buffer b' id ≡ buffer b id

  pub close-Closes :
      (id : ℕ) (b : Broadcast T)
      → closed_bit b id ≡ 0
      → (b' : Broadcast T) × (close id b ≡ some b') × Closes (id ∷ []) b b'
  unfolding close
  close-Closes id b h = (
    record b { channel = update b.channel id (record (b.channel id) { closed = true }) },
    ground arith,
    record {
      listeners_same = refl;
      next_same = refl;
      capacity_same = refl;
      closed_now = λ other. ground (arith, ==_iff other id);
      buffer_same = λ other. ground (arith, ==_iff other id);
    },
  )

  close_all-Closes :
      (ids : List ℕ) (b : Broadcast T)
      → ((id : ℕ) → count id ids + closed_bit b id ≤ 1)
      → (b' : Broadcast T) × (close_all ids b ≡ some b') × Closes ids b b'
  unfolding close_all
  close_all-Closes [] b h = (
    b,
    refl,
    record {
      listeners_same = refl;
      next_same = refl;
      capacity_same = refl;
      closed_now = λ id. omega arith;
      buffer_same = λ id. refl;
    },
  )
  close_all-Closes (id ∷ ids) b h =
      let (mid, e, c) = close-Closes id b (ground (arith, h id)) in
      let (b', e', c') =
        close_all-Closes ids mid (λ other. omega (arith, h other, c.closed_now other)) in
      (
        b',
        rw (e, close_all) e',
        record {
          listeners_same = c'.listeners_same ∙ c.listeners_same;
          next_same = c'.next_same ∙ c.next_same;
          capacity_same = c'.capacity_same ∙ c.capacity_same;
          closed_now = λ other. omega (arith, c.closed_now other, c'.closed_now other);
          buffer_same = λ other. c'.buffer_same other ∙ c.buffer_same other;
        },
      )

  at_most_one : (b : Broadcast T) → Inv b → (id : ℕ) → count id b.listeners + closed_bit b id ≤ 1
  at_most_one b v id = ground (arith, v.accounted id)

  -- Clearing closes every listener, without a panic, and leaves no listener.
  pub clear-closes :
      (b : Broadcast T)
      → Inv b
      → (b' : Broadcast T) × (clear b ≡ some b')
        × Inv b'
        × ((id : ℕ) → id < b.next → closed_bit b' id ≡ 1)
        × (b'.next ≡ b.next)
        × ((id : ℕ) → buffer b' id ≡ buffer b id)
  unfolding clear
  clear-closes b v =
      let (b', e, c) = close_all-Closes b.listeners b (at_most_one b v) in
      (
        record b' { listeners = [] },
        rw (e, clear),
        record {
          one_place = c.capacity_same ∙ v.one_place;
          accounted = λ id. rw c.next_same (omega (arith, c.closed_now id, v.accounted id));
          small = λ id. rw (c.buffer_same id) (v.small id);
        },
        (λ id h. ground (arith, c.closed_now id, v.accounted id)),
        c.next_same,
        c.buffer_same,
      )

  listed_open :
      (id : ℕ) (b : Broadcast T) → Inv b → contains id b.listeners ≡ true → closed_bit b id ≡ 0
  listed_open id b v e = ground (arith, v.accounted id, contains-count id b.listeners e)

  module _ (id : ℕ) (b b' : Broadcast T) (v : Inv b) (e : contains id b.listeners ≡ true)
      (c : Closes (id ∷ []) (record b { listeners = swap_remove id b.listeners }) b') where
    removed-Inv : Inv b'
    removed-Inv = record {
      one_place = c.capacity_same ∙ v.one_place;
      accounted = λ other.
          rw (c.listeners_same, c.next_same)
            (ground (
              arith,
              count-swap_remove id other b.listeners e,
              c.closed_now other,
              v.accounted other,
              ==_iff other id,
            ));
      small = λ other. rw (c.buffer_same other) (v.small other);
    }

    removed_closed : closed_bit b' id ≡ 1
    removed_closed =
        ground (arith, c.closed_now id, v.accounted id, contains-count id b.listeners e)

    removed_others : (other : ℕ) → (other ≡ id → ⊥) → closed_bit b' other ≡ closed_bit b other
    removed_others other ne = ground (arith, c.closed_now other)

  -- Cancelling closes a channel that is a listener and removes it, and does nothing to any other;
  -- so it may be called again, or after the end, and never panics.
  pub unregister-closes :
      (id : ℕ) (b : Broadcast T)
      → Inv b
      → id < b.next
      → (b' : Broadcast T) × (unregister id b ≡ some b')
        × Inv b'
        × (closed_bit b' id ≡ 1)
        × ((other : ℕ) → (other ≡ id → ⊥) → closed_bit b' other ≡ closed_bit b other)
        × ((other : ℕ) → buffer b' other ≡ buffer b other)
        × (b'.next ≡ b.next)
  unfolding unregister
  unregister-closes id b v lt = elim (Bool-cases (contains id b.listeners)) [
    | inl e ↦
        let (b', eq, c) =
          close-Closes id (record b { listeners = swap_remove id b.listeners })
            (listed_open id b v e) in
        (
          b',
          rw e eq,
          removed-Inv id b b' v e c,
          removed_closed id b b' v e c,
          removed_others id b b' v e c,
          c.buffer_same,
          c.next_same,
        )
    | inr e ↦ (
      b,
      rw e,
      v,
      ground (arith, v.accounted id, not-contains-count id b.listeners e),
      (λ other ne. refl),
      (λ other. refl),
      refl,
    )
  ]
