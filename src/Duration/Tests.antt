-- ===== src/Duration/Tests.antt =====
-- Durations at concrete texts.
use revenant_cloud.Base.{
  String, ◌≡◌, refl, ◌⊎◌, none, some, List, [], ◌∷◌, ◌++◌, codes, decimal, All, Any,
}
use revenant_cloud.Duration.{parse_duration, parse_go_duration, CheckResult, extract_rpo}
use revenant_cloud.Duration.RoundTrip.{go_text, parse_go_duration-go_text, parse_go_duration-ms}
use revenant_cloud.Duration.Lag.{AtMost, Passed, told, extract_rpo_lem}

durations :
    (parse_duration (codes " 15m ") ≡ some 900)
    × (parse_duration (codes "1.5H") ≡ some 5400)
    × (parse_duration (codes "500ms") ≡ some 1)
    × (parse_duration (codes "7d") ≡ some 604800)
    × (parse_duration (codes "1.h") ≡ none)
    × (parse_duration (codes "15 m") ≡ none)
unfolding parse_duration
durations = (refl, refl, refl, refl, refl, refl)

go_durations :
    (parse_go_duration (codes "2m30s") ≡ some 150)
    × (parse_go_duration (codes "1h5m0s") ≡ some 3900)
    × (parse_go_duration (codes "1.2.5h") ≡ some 9000)
    × (parse_go_duration (codes "never") ≡ none)
    × (parse_go_duration (codes "250ms") ≡ some 15000)
unfolding parse_go_duration
go_durations = (refl, refl, refl, refl, refl)

parse_go_duration-go_text_example : parse_go_duration (go_text 1 5 30) ≡ some 3930
parse_go_duration-go_text_example = parse_go_duration-go_text 1 5 30

parse_go_duration-ms_example : parse_go_duration (decimal 250 ++ b'm' ∷ b's' ∷ []) ≡ some 15000
parse_go_duration-ms_example = parse_go_duration-ms 250

abbrev fresh : String → CheckResult
fresh text = record { check_type = "freshness"; status = "pass"; message = some (codes text) }

abbrev results : List CheckResult
results = fresh "fresh: 2m30s <= 24h0m0s" ∷ fresh "Fresh:1h0m0s<=24h" ∷ fresh "stale" ∷ []

observed : extract_rpo results ≡ some 3600
unfolding extract_rpo
observed = refl

extract_rpo_lem_example :
    All (λ r. Passed r → AtMost (told r.message) (extract_rpo results)) results
    × ((extract_rpo results ≡ none)
        ⊎ Any (λ r. Passed r × (told r.message ≡ extract_rpo results)) results)
extract_rpo_lem_example = extract_rpo_lem results
