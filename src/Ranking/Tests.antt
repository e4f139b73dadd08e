-- ===== src/Ranking/Tests.antt =====
-- A ranking of two servers, and the theorems on it.
use epaflix.Base.{
  ◌↔◌, ◌*◌, ◌>>=?◌, text_eq, lower, ◌≡◌, refl, true, false, Option, some, List, [], ◌∷◌, Text,
  codes,
}
use epaflix.Base.Int.{ℤ, pos}
use epaflix.Base.Json.{Json, finite, one}
use epaflix.Scorer.Rows.{Row}
use epaflix.Ranking.Check.{read_row, read_from, is_ipv4, is_identity}
use epaflix.Ranking.Check.Laws.{is_valid}
use epaflix.Ranking.Document.{
  build_document, parse_ranking, parse_document, document_json, read_document,
}
use epaflix.Ranking.Document.Agree.{
  parse_ranking-build_document, parse_document-read_document, adopted,
}
use epaflix.Ranking.Document.Sound.{parse_ranking-usable, IsAdopted}

abbrev alpha : Row
alpha = record {
  name = codes "Alpha";
  entry_ip = codes "10.0.0.1";
  loss_pct = finite (pos 330_000);
  rtt_ms = finite (pos 21_500_000);
  load = pos 31;
  bw_max = pos 20_000;
  headroom = pos 13_800;
}

abbrev beta : Row
beta = record alpha { name = codes "Beta"; entry_ip = codes "10.0.0.255" }

abbrev servers : List Row
servers = alpha ∷ beta ∷ []

abbrev stamp : Text
stamp = codes "1970-01-01T00:16:40Z"

abbrev written : Json
written = document_json stamp 2100 servers

-- Stand-ins for json.dumps, json.loads and strptime on this document.
abbrev dumps : Json → Text
dumps j = codes "{}"

abbrev loads : Text → Option Json
loads t = some written

abbrev strptime : Text → Option ℤ
strptime t = some (pos (1000 * one))

address_ok : is_ipv4 (codes "10.0.0.255") ≡ true
unfolding is_ipv4
address_ok = refl

address_leading_zero : is_ipv4 (codes "10.0.0.01") ≡ false
unfolding is_ipv4
address_leading_zero = refl

name_trailing_space : is_identity (codes "Alpha ") ≡ false
unfolding is_identity
name_trailing_space = refl

-- Ten minutes on, the rows are there; at 2101 seconds they are not.
read_back :
    parse_ranking strptime loads (build_document dumps stamp 2100 servers) (1600 * one)
    ≡ some (servers, pos (600 * one))
unfolding parse_document read_row read_from is_identity is_ipv4 text_eq lower
read_back = refl

read_late :
    parse_ranking strptime loads (build_document dumps stamp 2100 servers) (3101 * one)
    ≡ some ([], pos (2101 * one))
unfolding parse_document read_row read_from is_identity is_ipv4 text_eq lower
read_late = refl

parse_ranking-build_document_example :
    parse_ranking strptime loads (build_document dumps stamp 2100 servers) (1600 * one)
    ≡ some (servers, pos (600 * one))
unfolding is_valid is_identity is_ipv4 text_eq lower
parse_ranking-build_document_example =
    parse_ranking-build_document dumps loads strptime stamp (pos (1000 * one)) 2100 (1600 * one)
      servers refl refl

parse_document-read_document_example :
    parse_document strptime (1600 * one) written
    ≡ (read_document strptime written >>=? adopted (1600 * one))
parse_document-read_document_example = parse_document-read_document strptime (1600 * one) written

parse_ranking-usable_example :
    (parse_ranking strptime loads (build_document dumps stamp 2100 servers) (1600 * one)
      ≡ some (servers, pos (600 * one)))
    ↔ IsAdopted strptime loads
        (build_document dumps stamp 2100 servers)
        (1600 * one)
        servers
        (pos (600 * one))
parse_ranking-usable_example =
    parse_ranking-usable strptime loads (build_document dumps stamp 2100 servers) (1600 * one)
      servers (pos (600 * one))
