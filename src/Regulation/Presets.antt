-- ===== src/Regulation/Presets.antt =====
-- The presets of src/edition-actions/action-regulation.ts, `DEFAULTS` and `GENERIC`. The values of chess are
-- doubled, as its half points are counted in halves.
use intereng_api.Base.{ℕ, String, true, false, [], ◌∷◌, ◌===◌, if◌then◌else◌}
use intereng_api.Base.Int.{pos}
use intereng_api.Regulation.{
  ScoringRule, SecondaryRule, periods, sets, board, result, vitorias, confronto_direto, saldo,
  marcados, fair_play, sorteio, KnockoutMethod, prorrogacao, penaltis, set_extra, criterio_tecnico,
  KnockoutRule, countdown, no_clock, Regulation, collective_standings,
}

abbrev pub score : String → ℕ → ScoringRule
score l p = record { label = l; points = p }

-- `secondary(label)`, the options at their defaults.
abbrev pub event : String → SecondaryRule
event l = record {
  label = l;
  requires_side = true;
  allowed_when_stopped = true;
  score_points = 0;
  fair_play_points = 0;
}

-- `secondary(label, { fairPlayPoints: 1 })`
abbrev card : String → SecondaryRule
card l = record (event l) { fair_play_points = 1 }

-- `knockout(method, label)` and `knockout(method, label, false, false)`
abbrev scored : KnockoutMethod → String → KnockoutRule
scored m l = record { method = m; label = l; requires_score = true; third_place_match = true }

abbrev scoreless : KnockoutMethod → String → KnockoutRule
scoreless m l = record { method = m; label = l; requires_score = false; third_place_match = false }

abbrev futsal : Regulation
futsal = record {
  period_label = "Tempo";
  period_count = 2;
  period_duration_minutes = 20;
  clock_mode = countdown;
  scoring = score "Gol" 1 ∷ [];
  secondary = event "Falta" ∷ card "Cartão" ∷ [];
  completion = periods true 0 0;
  standings = collective_standings;
  knockout = scored penaltis "Pênaltis";
}

abbrev handebol : Regulation
handebol = record {
  period_label = "Tempo";
  period_count = 2;
  period_duration_minutes = 30;
  clock_mode = countdown;
  scoring = score "Gol" 1 ∷ [];
  secondary = event "Falta" ∷ card "2 minutos" ∷ [];
  completion = periods true 0 0;
  standings = collective_standings;
  knockout = scored penaltis "Pênaltis";
}

abbrev basquete : Regulation
basquete = record {
  period_label = "Tempo";
  period_count = 2;
  period_duration_minutes = 10;
  clock_mode = countdown;
  scoring = score "Lance livre" 1 ∷ score "Cesta de 2" 2 ∷ score "Cesta de 3" 3 ∷ [];
  secondary = card "Falta" ∷ event "Tempo técnico" ∷ [];
  completion = periods false 1 5;
  standings = record {
    win = pos 2;
    draw = pos 0;
    loss = pos 1;
    tiebreakers = confronto_direto ∷ saldo ∷ marcados ∷ fair_play ∷ sorteio ∷ [];
  };
  knockout = scored prorrogacao "Prorrogação";
}

abbrev pub volei : Regulation
volei = record {
  period_label = "Set";
  period_count = 5;
  period_duration_minutes = 0;
  clock_mode = no_clock;
  scoring = score "Ponto" 1 ∷ [];
  secondary = event "Falta" ∷ event "Tempo técnico" ∷ [];
  completion = sets (record {
    sets_to_win = 3;
    points_to_win_set = 25;
    points_to_win_deciding_set = 15;
    min_advantage = 2;
  });
  standings = record {
    win = pos 3;
    draw = pos 0;
    loss = pos 0;
    tiebreakers = confronto_direto ∷ vitorias ∷ saldo ∷ marcados ∷ sorteio ∷ [];
  };
  knockout = scored set_extra "Set extra";
}

-- In half points: a win is 1 and a draw 0.5, on the board and in the table.
abbrev xadrez : Regulation
xadrez = record {
  period_label = "Rodada";
  period_count = 7;
  period_duration_minutes = 0;
  clock_mode = no_clock;
  scoring = score "Ponto" 2 ∷ [];
  secondary = card "Advertência" ∷ [];
  completion = board true 2 1;
  standings = record {
    win = pos 2;
    draw = pos 1;
    loss = pos 0;
    tiebreakers = confronto_direto ∷ vitorias ∷ sorteio ∷ [];
  };
  knockout = scoreless criterio_tecnico "Critério técnico do regulamento";
}

abbrev natacao : Regulation
natacao = record {
  period_label = "Prova";
  period_count = 1;
  period_duration_minutes = 0;
  clock_mode = no_clock;
  scoring = score "Resultado" 1 ∷ [];
  secondary = record (event "Largada") { requires_side = false } ∷ event "Ocorrência" ∷ [];
  completion = result false;
  standings = record {
    win = pos 3;
    draw = pos 1;
    loss = pos 0;
    tiebreakers = vitorias ∷ marcados ∷ sorteio ∷ [];
  };
  knockout = scoreless criterio_tecnico "Critério técnico do regulamento";
}

abbrev generic : Regulation
generic = record {
  period_label = "Tempo";
  period_count = 2;
  period_duration_minutes = 20;
  clock_mode = countdown;
  scoring = score "Ponto" 1 ∷ [];
  secondary = event "Falta" ∷ event "Ocorrência" ∷ [];
  completion = periods true 0 0;
  standings = collective_standings;
  knockout = scoreless criterio_tecnico "Critério técnico do regulamento";
}

-- `DEFAULTS[discipline] ?? GENERIC`
unfoldable pub preset : String → Regulation
preset discipline =
    if discipline === "Futsal"
    then futsal
    else if discipline === "Handebol"
    then handebol
    else if discipline === "Basquete"
    then basquete
    else if discipline === "Vôlei"
    then volei
    else if discipline === "Xadrez"
    then xadrez
    else if discipline === "Natação"
    then natacao
    else generic
