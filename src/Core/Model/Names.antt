-- ===== src/Core/Model/Names.antt =====
-- The names of states and kinds in the database and on the wire, read back.
use otdel.Prelude.{◌≡◌, refl, ap, ◌∙◌, ◌↔◌, some, arith}
use otdel.Prelude.Text.{Text, codes, text_eq, text_eq_iff}
use otdel.Core.Model.{
  MaterialStatus, JobStatus, material_status_as_str, parse_material_status, job_status_as_str,
  parse_job_status,
}

parse_material_status-material_status_as_str :
    (s : MaterialStatus) → parse_material_status (material_status_as_str s) ≡ some s
unfolding parse_material_status material_status_as_str text_eq
parse_material_status-material_status_as_str MaterialStatus.queued = refl
parse_material_status-material_status_as_str MaterialStatus.processing = refl
parse_material_status-material_status_as_str MaterialStatus.completed = refl
parse_material_status-material_status_as_str MaterialStatus.partial = refl
parse_material_status-material_status_as_str MaterialStatus.failed = refl
parse_material_status-material_status_as_str MaterialStatus.quarantined = refl

material_status_as_str_of_parse_material_status :
    (value : Text) (s : MaterialStatus)
    → parse_material_status value ≡ some s
    → value ≡ material_status_as_str s
unfolding parse_material_status material_status_as_str
material_status_as_str_of_parse_material_status value s e = ground (
  arith,
  text_eq_iff value (codes "queued"),
  text_eq_iff value (codes "processing"),
  text_eq_iff value (codes "completed"),
  text_eq_iff value (codes "partial"),
  text_eq_iff value (codes "failed"),
  text_eq_iff value (codes "quarantined"),
)

-- Every name is read back as its value, and no other text is read as that value.
pub parse_material_status_iff :
    (value : Text) (s : MaterialStatus)
    → (parse_material_status value ≡ some s) ↔ (value ≡ material_status_as_str s)
parse_material_status_iff value s = (
  material_status_as_str_of_parse_material_status value s,
  λ e. ap parse_material_status e ∙ parse_material_status-material_status_as_str s,
)

parse_job_status-job_status_as_str :
    (s : JobStatus) → parse_job_status (job_status_as_str s) ≡ some s
unfolding parse_job_status job_status_as_str text_eq
parse_job_status-job_status_as_str JobStatus.queued = refl
parse_job_status-job_status_as_str JobStatus.running = refl
parse_job_status-job_status_as_str JobStatus.completed = refl
parse_job_status-job_status_as_str JobStatus.failed = refl
parse_job_status-job_status_as_str JobStatus.cancelled = refl

job_status_as_str_of_parse_job_status :
    (value : Text) (s : JobStatus) → parse_job_status value ≡ some s → value ≡ job_status_as_str s
unfolding parse_job_status job_status_as_str
job_status_as_str_of_parse_job_status value s e = ground (
  arith,
  text_eq_iff value (codes "queued"),
  text_eq_iff value (codes "running"),
  text_eq_iff value (codes "completed"),
  text_eq_iff value (codes "failed"),
  text_eq_iff value (codes "cancelled"),
)

-- Every name is read back as its value, and no other text is read as that value.
pub parse_job_status_iff :
    (value : Text) (s : JobStatus)
    → (parse_job_status value ≡ some s) ↔ (value ≡ job_status_as_str s)
parse_job_status_iff value s = (
  job_status_as_str_of_parse_job_status value s,
  λ e. ap parse_job_status e ∙ parse_job_status-job_status_as_str s,
)
