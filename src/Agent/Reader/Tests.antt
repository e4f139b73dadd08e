-- ===== src/Agent/Reader/Tests.antt =====
-- A reader that fetches one ranking, adopts it and is shut down.
use epaflix.Base.{◌*◌, true, false, Option, some, [], ◌∷◌, Text, codes}
use epaflix.Base.Int.{ℤ, pos}
use epaflix.Base.Json.{Json, finite, one}
use epaflix.Scorer.Rows.{Row}
use epaflix.Ranking.Document.{document_json}
use epaflix.Agent.Reader.{sleeping}
use epaflix.Agent.Reader.Steps.{System}

abbrev alpha : Row
alpha = record {
  name = codes "Alpha";
  entry_ip = codes "10.0.0.1";
  loss_pct = finite (pos 0);
  rtt_ms = finite (pos 20_000_000);
  load = pos 31;
  bw_max = pos 20_000;
  headroom = pos 13_800;
}

abbrev strptime : Text → Option ℤ
strptime t = some (pos (1000 * one))

abbrev loads : Text → Option Json
loads t = some (document_json (codes "1970-01-01T00:16:40Z") 2100 (alpha ∷ []))

abbrev one_read : System
one_read = record {
  reader = record {
    snapshot = some (codes "{}");
    attempted = true;
    attempts = 1;
    stopping = false;
    started = true;
  };
  phase = sleeping;
  cached = codes "{}" ∷ [];
}
