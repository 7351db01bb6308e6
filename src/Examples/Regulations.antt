-- ===== src/Examples/Regulations.antt =====
-- The regulation of volleyball as a stored configuration, and configurations of the older form.
use intereng_api.Base.{◌≡◌, refl, arith, some}
use intereng_api.Base.Int.{ℤ}
use intereng_api.Base.Text.{trim, trim_start, trim_end, is_space}
use intereng_api.Http.{ok}
use intereng_api.Json.{Number, whole, fraction}
use intereng_api.Regulation.Presets.{volei}
use intereng_api.Regulation.Config.{config_json, IsLabel, IsStorable}
use intereng_api.Regulation.Resolve.{resolve_action_regulation}
use intereng_api.Regulation.Saved.{resolve_action_regulation-config_json}

-- Whole points; half of a point would be rounded down.
abbrev whole_points : Number → ℤ
whole_points (whole n) = n
whole_points (fraction n d) = n

set-IsLabel : IsLabel "Set"
unfolding trim trim_start trim_end is_space
set-IsLabel = record { not_empty = refl; trimmed = refl }

volei-IsStorable : IsStorable volei
unfolding trim trim_start trim_end is_space
volei-IsStorable = record {
  period_name = set-IsLabel;
  some_period = ground arith;
  some_scoring = λ e. cc;
  scoring_fine = ((record { not_empty = refl; trimmed = refl }, ground arith), tt);
  some_secondary = λ e. cc;
  secondary_fine = (
    record { not_empty = refl; trimmed = refl },
    (record { not_empty = refl; trimmed = refl }, tt),
  );
  sets_fine = (ground arith, ground arith, ground arith, ground arith);
  some_tiebreaker = λ e. cc;
  knockout_name = record { not_empty = refl; trimmed = refl };
}

resolve_action_regulation-config_json_example :
    resolve_action_regulation whole_points (λ s. s) "Vôlei" (some (config_json volei)) ≡ ok volei
resolve_action_regulation-config_json_example =
    resolve_action_regulation-config_json whole_points (λ n. refl) (λ s. s) "Vôlei" volei
      volei-IsStorable
