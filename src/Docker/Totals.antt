-- ===== src/Docker/Totals.antt =====
-- What GetContainerStats of internal/docker/manager.go computes, and for which names it panics.
use mathlib.Core.List.{Perm, foldr}
use mathlib.Core.List.Perm
use aquatiq_root.Common.{
  ℕ, ◌+◌, ◌%◌, ◌^◌, ◌<◌, Text, ◌≡◌, ◌≢◌, ◌↔◌, refl, ap₂, ◌∙◌, List, [], ◌∷◌, length, arith,
  Bool-cases, inl, inr,
}
use aquatiq_root.Common.Words.{add_64, sub_64}
use aquatiq_root.Common.Attempt.{panicked}
use aquatiq_root.Docker.Daemon.{ok, Inspect, Network, StatsResponse, Docker}
use aquatiq_root.Docker.Statistics.{
  Float, sum_networks, cpu_percent, to_stats, with_name, get_container_stats,
}

-- The totals without a wrap-around.
abbrev pub total_rx : List (Text × Network) → ℕ
total_rx = foldr (λ n t. n.1.rx_bytes + t) 0

abbrev pub total_tx : List (Text × Network) → ℕ
total_tx = foldr (λ n t. n.1.tx_bytes + t) 0

sum_networks-total :
    (rx tx : ℕ) (ns : List (Text × Network))
    → rx < 2 ^ 64
    → tx < 2 ^ 64
    → sum_networks rx tx ns ≡ ((rx + total_rx ns) % 2 ^ 64, (tx + total_tx ns) % 2 ^ 64)
unfolding sum_networks
sum_networks-total rx tx [] h k = ap₂ (λ a b. (a, b)) (omega (arith, h)) (omega (arith, k))
sum_networks-total rx tx ((name, n) ∷ ns) h k =
    sum_networks-total (add_64 rx n.rx_bytes) (add_64 tx n.tx_bytes) ns (omega arith) (omega arith)
    ∙ ap₂ (λ a b. (a, b)) (omega arith) (omega arith)

-- The bytes received and sent are the totals over all networks modulo 2 to the 64th, and the order
-- in which the loop visits the map makes no difference.
sum_networks-Perm :
    (ns order : List (Text × Network))
    → Perm order ns
    → sum_networks 0 0 order ≡ (total_rx ns % 2 ^ 64, total_tx ns % 2 ^ 64)
sum_networks-Perm ns order p =
    let rx =
      Perm.foldr-eq (hlevel) (λ (n : Text × Network) (t : ℕ). n.1.rx_bytes + t)
        (λ a b x. omega arith) p 0 in
    let tx =
      Perm.foldr-eq (hlevel) (λ (n : Text × Network) (t : ℕ). n.1.tx_bytes + t)
        (λ a b x. omega arith) p 0 in
    sum_networks-total 0 0 order (omega arith) (omega arith)
    ∙ ap₂ (λ a b. (a, b)) (omega (arith, rx)) (omega (arith, tx))

module _ (float : Float) where
  open float use {F, of_uint, divided, times, is_positive, quotient_times_zero, zero_times}

  -- Where the daemon gives no usage for each processor, as it does on hosts with version 2 of the
  -- control groups, the CPU percentage is 0, whatever the container used.
  cpu_percent_no_percpu :
      (s : StatsResponse) → s.percpu_usage ≡ [] → cpu_percent float s ≡ of_uint 0
  unfolding cpu_percent
  cpu_percent_no_percpu s none =
      let cpu = sub_64 s.total_usage s.pre_total_usage in
      let system = sub_64 s.system_usage s.pre_system_usage in
      elim (Bool-cases (is_positive (of_uint system))) [
        | inl positive ↦ ground (
          arith,
          none,
          positive,
          quotient_times_zero cpu system (omega arith) positive,
          zero_times 100 (omega arith),
        )
        | inr not_positive ↦ ground (arith, none, not_positive)
      ]

  to_stats_panics :
      (name_or_id : Text) (s : StatsResponse) (i : Inspect) (shown : Text)
      → i.name ≡ shown
      → i.name ≢ []
      → (to_stats float name_or_id s i ≡ panicked) ↔ (length name_or_id < 12)
  unfolding to_stats
  to_stats_panics name_or_id s i [] e named = absurd (named e)
  to_stats_panics name_or_id s i (c ∷ shown) e named =
      (λ h. ground (arith, e, h), λ h. ground (arith, e, h))

  module _ (docker : Docker) where
    open docker use {Daemon}

    -- Where the daemon answers with statistics and with a container that has a name,
    -- GetContainerStats panics exactly for a name or id of fewer than twelve bytes, so for most
    -- names: it cuts what the caller gave, not the id of the container.
    pub get_container_stats_panics :
        (name_or_id : Text) (d : Daemon) (s : StatsResponse) (i : Inspect)
        → (docker.container_stats name_or_id d).0 ≡ ok (ok s)
        → (docker.container_inspect name_or_id (docker.container_stats name_or_id d).1).0 ≡ ok i
        → i.name ≢ []
        → ((get_container_stats float docker name_or_id d).0 ≡ panicked) ↔ (length name_or_id < 12)
    unfolding get_container_stats with_name
    get_container_stats_panics name_or_id d s i answered found named =
        simp (answered, found) (to_stats_panics name_or_id s i i.name refl named)
