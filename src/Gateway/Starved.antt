-- ===== src/Gateway/Starved.antt =====
-- The gateway of cmd/gateway/main.go on the configuration that it falls back on.
use aquatiq_root.Common.{
  ℕ, Text, ◌≡◌, refl, ap, ap₂, ◌∙◌, Bool, true, false, none, List, [], ◌∷◌, length, replicate,
}
use aquatiq_root.Http.{Request, Writer, fresh}
use aquatiq_root.Audit.{Logger}
use aquatiq_root.Redis.{Client}
use aquatiq_root.Cache.Connect.{Options}
use aquatiq_root.Config.{Loaded, loaded, failed_to_read, failed_to_unmarshal, invalid_configuration}
use aquatiq_root.RateLimit.Bucket.{Rate}
use aquatiq_root.RateLimit.Limiter.{Limiter, allow_global, reject, global}
use aquatiq_root.RateLimit.Window.{global_tier}
use aquatiq_root.RateLimit.Answers.{
  IsStarved, ask-IsStarved, new-IsStarved, log_violation-IsStarved, middleware_refused,
  decide-global,
}
use aquatiq_root.Gateway.Startup.{
  get_default_config, configured, limiter_config, connect, start_limiter,
}
use aquatiq_root.Gateway.Server.{Payload, routed, serve}

abbrev pub has_failed : Loaded → Bool
has_failed (loaded cfg) = false
has_failed (failed_to_read e) = true
has_failed (failed_to_unmarshal e) = true
has_failed (invalid_configuration e) = true

configured_default :
    (result : Loaded) → has_failed result ≡ true → configured result ≡ get_default_config
unfolding configured
configured_default (loaded cfg) h = cc h
configured_default (failed_to_read e) h = refl
configured_default (failed_to_unmarshal e) h = refl
configured_default (invalid_configuration e) h = refl

module _ (rate : Rate) (redis : Client) (clock : ℕ → ℕ) (encode : Payload → Text)
    (unrouted : Request → Writer → Writer) where
  -- The status codes of the answers to requests, one after the other.
  unfoldable pub statuses : List Request → Limiter rate redis → List ℕ
  statuses [] l = []
  statuses (r ∷ rs) l =
      let (w, l') = serve rate redis clock encode unrouted r fresh l in w.status ∷ statuses rs l'

  serve-IsStarved :
      (r : Request) (l : Limiter rate redis)
      → IsStarved rate redis clock l
      → ((serve rate redis clock encode unrouted r fresh l).0.status ≡ 429)
        × IsStarved rate redis clock (serve rate redis clock encode unrouted r fresh l).1
  unfolding serve
  serve-IsStarved r l h =
      let (refused, starved) = ask-IsStarved rate redis clock global_tier l h in
      let same = decide-global rate redis clock l in
      let answered =
        middleware_refused rate redis clock global (routed rate redis clock encode unrouted) r fresh
          l (ap (λ (d : Bool × Limiter rate redis). d.0) same ∙ refused) in
      rw (answered, same)
        (
          unfold reject in refl,
          log_violation-IsStarved rate redis clock r global (allow_global rate redis clock l).1
              starved,
        )

  statuses-IsStarved :
      (rs : List Request) (l : Limiter rate redis)
      → IsStarved rate redis clock l
      → statuses rs l ≡ replicate (length rs) 429
  unfolding statuses
  statuses-IsStarved [] l h = refl
  statuses-IsStarved (r ∷ rs) l h =
      let (refused, starved) = serve-IsStarved r l h in
      ap₂ (λ s ss. s ∷ ss) refused (statuses-IsStarved rs _ starved)

  -- Where the configuration cannot be loaded, the gateway that main starts answers every request
  -- with 429, on every route and whatever came before: the configuration that it falls back on has
  -- a burst of 0 and no Redis.
  pub failed_load_rejects :
      (new_client : Options → redis.Server) (result : Loaded) (audit : Logger) (rs : List Request)
      → has_failed result ≡ true
      → statuses rs (start_limiter rate redis new_client result audit) ≡ replicate (length rs) 429
  unfolding start_limiter connect limiter_config get_default_config
  failed_load_rejects new_client result audit rs h = rw (configured_default result h) (
      statuses-IsStarved rs _ (
        new-IsStarved rate redis clock (limiter_config {A = redis.Server} get_default_config none)
          audit refl))
