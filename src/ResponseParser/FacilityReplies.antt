-- ===== src/ResponseParser/FacilityReplies.antt =====
-- What the parsers for facilities make of the replies that the server sends on success, in the
-- formats of API_Specification.md.
use sc4051_dist_system_proj.Prelude.{
  ◌≡◌, ◌≢◌, refl, ap, ◌∙◌, [], ◌∷◌, ◌++◌, List, Bytes, codes, arith, All, All-append, append_assoc,
  sym, append-nil,
}
use sc4051_dist_system_proj.Text.{newline, comma}
use sc4051_dist_system_proj.Text.Lines.{
  Lacks, IsLine, join, terminated, getlines-join, getlines-terminated, found_at_start_lem,
}
use sc4051_dist_system_proj.ResponseParser.{status_success}
use sc4051_dist_system_proj.ResponseParser.Facility.{
  MonitorFields, RateFields, RatingFields, add_names, names_line,
  parse_query_facility_names_response,
}
use sc4051_dist_system_proj.ResponseParser.Keyed.{key-IsLine, has_newline, reply_rest, ◌&◌}

-- A name that the server can put into the list of facilities.
abbrev pub IsName : Bytes → Type 0
IsName name = Lacks newline name × IsLine comma name

-- The reply to a query of the facilities: every name has a comma behind it.
abbrev pub names_reply : List Bytes → Bytes
names_reply names =
    join newline (status_success ∷ (codes "facilityNames:" ++ terminated comma names) ∷ [])

Lacks-terminated : (names : List Bytes) → All IsName names → Lacks newline (terminated comma names)
unfolding terminated
Lacks-terminated [] h = tt
Lacks-terminated (name ∷ names) h =
    All-append (λ c. c ≢ newline) name (comma ∷ terminated comma names) h.0.0
      (omega arith, Lacks-terminated names h.1)

add_names_lem : (names box : List Bytes) → All IsName names → add_names box names ≡ box ++ names
unfolding add_names
add_names_lem [] box h = sym (append-nil box)
add_names_lem ([] ∷ names) box h = absurd (h.0.1.1 refl)
add_names_lem ((c ∷ name) ∷ names) box h =
    add_names_lem names (box ++ (c ∷ name) ∷ []) h.1 ∙ append_assoc box ((c ∷ name) ∷ []) names

names_commas : (names : List Bytes) → All IsName names → All (Lacks comma) names
names_commas [] h = tt
names_commas (name ∷ names) h = (h.0.1.0, names_commas names h.1)

names_line_lem :
    (names box : List Bytes)
    → All IsName names
    → names_line box (codes "facilityNames:" ++ terminated comma names) ≡ box ++ names
unfolding names_line
names_line_lem names box h =
    rw
      (found_at_start_lem (codes "facilityNames:")
        (codes "facilityNames:" ++ terminated comma names))
      (ap (add_names box) (getlines-terminated comma names (names_commas names h))
        ∙ add_names_lem names box h)

-- The names of the facilities, none of them empty or with a comma or a newline, are shown in their
-- order, one in each line.
pub names_replies :
    (names : List Bytes)
    → All IsName names
    → parse_query_facility_names_response (names_reply names) ≡ codes "Facility Names" ∷ names
unfolding parse_query_facility_names_response has_newline
names_replies names h =
    let line = codes "facilityNames:" ++ terminated comma names in
    let lines =
      getlines-join newline (line ∷ []) (
        key-IsLine "facilityNames:" (terminated comma names) refl (Lacks-terminated names h)
        & tt) in
    rw (reply_rest _ _) (rw lines (names_line_lem names (codes "Facility Names" ∷ []) h))

pub record IsMonitor (f : MonitorFields) : Type 0 where
  pub facility : Lacks newline f.facility
  pub duration : Lacks newline f.duration

abbrev monitor_lines : MonitorFields → List Bytes
monitor_lines f = (codes "facility:" ++ f.facility) ∷ (codes "interval:" ++ f.duration) ∷ []

abbrev pub monitor_reply : MonitorFields → Bytes
monitor_reply f = join newline (status_success ∷ monitor_lines f)

pub record IsRate (f : RateFields) : Type 0 where
  pub user_info : Lacks newline f.user_info
  pub facility : Lacks newline f.facility
  pub rating : Lacks newline f.rating

abbrev rate_lines : RateFields → List Bytes
rate_lines f =
    (codes "user:" ++ f.user_info)
    ∷ (codes "facility:" ++ f.facility)
    ∷ (codes "rating:" ++ f.rating)
    ∷ []

abbrev pub rate_reply : RateFields → Bytes
rate_reply f = join newline (status_success ∷ rate_lines f)

pub record IsRating (f : RatingFields) : Type 0 where
  pub facility : Lacks newline f.facility
  pub rating : Lacks newline f.rating

abbrev rating_lines : RatingFields → List Bytes
rating_lines f = (codes "facility:" ++ f.facility) ∷ (codes "rating:" ++ f.rating) ∷ []

abbrev pub rating_reply : RatingFields → Bytes
rating_reply f = join newline (status_success ∷ rating_lines f)
