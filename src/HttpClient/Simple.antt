-- ===== src/HttpClient/Simple.antt =====
-- A retrying client on a wire whose waits the context never ends, which meets what is assumed of retryablehttp.
use aquatiq_root.Common.{
  ℕ, zero, suc, ◌+◌, ◌^◌, ◌≤◌, ◌<◌, Text, lit, ◌≡◌, inl, inr, refl, ap, ap₂, Bool, true, false,
  Bool-cases, Option, none, some, Option-cases, arith,
}
use aquatiq_root.Common.Int.{pos, pos_part, ltb_ℤ}
use aquatiq_root.HttpClient.Tries.{below-pos_part}
use aquatiq_root.HttpClient.Policy.{
  Received, no_response, response, with_path, OutgoingRequest, RetrySettings, Wire, Tried, answered,
  stopped, not_answered, gave_up, again, Transport,
}

module _ (trip : ℕ → Received) where
  -- The world is the number of requests so far, and the n-th is answered by `trip n`.
  abbrev pub wire : Wire
  wire = record {
    World = ℕ;
    parse_url = λ url. with_path url;
    parse_duration = λ _. none;
    max_alloc = 2 ^ 48;
    from_request = λ _. none;
    round_trip = λ _ _ w. (trip w, suc w);
    context_error = λ _. none;
    pause = λ _ w. (none, w);
  }

  module _ (s : RetrySettings) where
    abbrev pub ended : Option Text → Received → Received
    ended (some e) r = no_response e
    ended none r = r

    unfoldable pub try_from : ℕ → ℕ → ℕ → Received × ℕ
    try_from zero i w = (no_response (lit "giving up"), suc w)
    try_from (suc left) i w =
        let rest = try_from left (suc i) (suc w) in
        elim (s.check_retry none (trip w)).0 [
          | false ↦ (ended (s.check_retry none (trip w)).1 (trip w), suc w)
          | true ↦ elim (ltb_ℤ (pos i) s.retry_max) [
            | false ↦ (no_response (lit "giving up"), suc w)
            | true ↦ rest
          ]
        ]

    over :
        (req : OutgoingRequest) (i w : ℕ) (received : Received)
        → trip w ≡ received
        → (s.check_retry none received).0 ≡ false
        → Tried wire s req (ended (s.check_retry none received).1 received) (suc w) i w
    over req i w received came no_more = elim (Option-cases (s.check_retry none received).1) [
      | inr (e, said) ↦
          stopped received e e (ap (λ r. (r, suc w)) came) (ap₂ (λ a b. (a, b)) no_more said)
            (ap (λ o. ended o received) said)
      | inl quiet ↦ quietly received came no_more quiet
    ]
      where
        quietly :
            (r : Received)
            → trip w ≡ r
            → (s.check_retry none r).0 ≡ false
            → (s.check_retry none r).1 ≡ none
            → Tried wire s req (ended (s.check_retry none r).1 r) (suc w) i w
        quietly (no_response e) t n q =
            not_answered e e (ap (λ r. (r, suc w)) t) (ap₂ (λ a b. (a, b)) n q)
              (ap (λ o. ended o (no_response e)) q)
        quietly (response resp) t n q =
            answered resp (ap (λ r. (r, suc w)) t) (ap₂ (λ a b. (a, b)) n q)
              (ap (λ o. ended o (response resp)) q)

    abbrev retries : ℕ → Bool
    retries w = (s.check_retry none (trip w)).0

    try_over :
        (left i w : ℕ)
        → retries w ≡ false
        → try_from (suc left) i w ≡ (ended (s.check_retry none (trip w)).1 (trip w), suc w)
    unfolding try_from
    try_over left i w h = ground (arith, h)

    try_full :
        (left i w : ℕ)
        → retries w ≡ true
        → ltb_ℤ (pos i) s.retry_max ≡ false
        → try_from (suc left) i w ≡ (no_response (lit "giving up"), suc w)
    unfolding try_from
    try_full left i w h full = ground (arith, h, full)

    try_again :
        (left i w : ℕ)
        → retries w ≡ true
        → ltb_ℤ (pos i) s.retry_max ≡ true
        → try_from (suc left) i w ≡ try_from left (suc i) (suc w)
    unfolding try_from
    try_again left i w h room = ground (arith, h, room)

    pub try_from-Tried :
        (req : OutgoingRequest) (left i w : ℕ)
        → i ≤ pos_part s.retry_max
        → pos_part s.retry_max < left + i
        → Tried wire s req (try_from left i w).0 (try_from left i w).1 i w
    try_from-Tried req zero i w low high = absurd (omega arith)
    try_from-Tried req (suc left) i w low high = elim (Bool-cases (s.check_retry none (trip w)).0) [
      | inr no_more ↦ rw (try_over left i w no_more) (over req i w (trip w) refl no_more)
      | inl retry ↦ elim (Bool-cases (ltb_ℤ (pos i) s.retry_max)) [
        | inr full ↦
            rw (try_full left i w retry full)
              (gave_up (trip w) (lit "giving up") refl retry full refl)
        | inl room ↦ rw (try_again left i w retry room) (
            again (trip w) (suc w) (suc w) refl retry room refl (
              try_from-Tried req left (suc i) (suc w)
                (omega (arith, below-pos_part i s.retry_max room)) (omega arith)))
      ]
    ]

  abbrev pub transport : Transport
  transport = record {
    wire = wire;
    send = λ s req w. try_from s (suc (pos_part s.retry_max)) 0 w;
    send_tried = λ s req w.
        try_from-Tried s req (suc (pos_part s.retry_max)) 0 w (omega arith) (omega arith);
  }
