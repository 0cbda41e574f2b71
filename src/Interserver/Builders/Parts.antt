-- ===== src/Interserver/Builders/Parts.antt =====
-- construct_bucket and construct_band (interact_builders.cc, lines 651-771).
use text.Mathlib.Text.{◌==◌ as string_eq}
use nox13_interserver.Common.{ℕ, List, [], ◌∷◌, ◌++◌, String, if◌then◌else◌}
use nox13_interserver.Common.Outcome.{Outcome, ok, ◌>>=◌, ◌>>◌, invalid_argument}
use nox13_interserver.OpenFlow.Actions.{Actions}
use nox13_interserver.Interserver.Json.{Json}
use nox13_interserver.Interserver.Builders.Arguments.{
  Libc, ArgumentsList, e_num, e_jarray, required, check_args, number_or, required_number,
}
use nox13_interserver.Interserver.Builders.ActionFields.{action_set}

pub record Bucket : Type 0 where
  pub weight : ℕ
  pub watch_port : ℕ
  pub watch_group : ℕ
  pub actions : Actions

abbrev pub bucket_tags : ArgumentsList
bucket_tags =
    ("weight", e_num)
    ∷ ("watch_port", e_num)
    ∷ ("watch_group", e_num)
    ∷ ("action_set", e_jarray)
    ∷ []

pub data BandType : Type 0 where
  drop : BandType
  dscp_remark : ℕ → BandType

pub record Band : Type 0 where
  pub type : BandType
  pub rate : ℕ
  pub burst_size : ℕ

module _ (libc : Libc) where
  unfoldable pub construct_bucket : Json → Outcome Bucket
  unfolding check_args number_or action_set
  construct_bucket args = do
    check_args libc bucket_tags args
    weight ← number_or libc args "weight" 16 0
    watch_port ← number_or libc args "watch_port" 32 0
    watch_group ← number_or libc args "watch_group" 32 0
    ac ← action_set libc args
    ok (record {
      weight = weight;
      watch_port = watch_port;
      watch_group = watch_group;
      actions = ac;
    })

  -- The loop over the array of "buckets". The array grows by one for each.
  unfoldable pub construct_buckets : List Json → List Bucket → Outcome (List Bucket)
  unfolding construct_bucket
  construct_buckets [] buckets = ok buckets
  construct_buckets (j ∷ js) buckets =
      construct_bucket j >>= λ b. construct_buckets js (buckets ++ b ∷ [])

  -- The two switches on the type.
  unfoldable pub band_type : Json → String → Outcome BandType
  unfolding required_number
  band_type args v =
      let level = required_number libc args "prec_level" 8 "missing prec_level field\n" in
      if string_eq v "drop"
      then ok drop
      else if string_eq v "dscp_remark"
      then (level >>= λ l. ok (dscp_remark l))
      else invalid_argument "Invalid meter_type field!\n"

  unfoldable pub construct_band : Json → Outcome Band
  unfolding required required_number band_type
  construct_band args = do
    rate ← required_number libc args "rate" 32 "missing rate field\n"
    burst_size ← required_number libc args "burst_size" 32 "missing burst_size field\n"
    v ← required args "meter_type" "missing meter_type field\n"
    type ← band_type args v
    ok (record { type = type; rate = rate; burst_size = burst_size })

  unfoldable pub construct_bands : List Json → List Band → Outcome (List Band)
  unfolding construct_band
  construct_bands [] bands = ok bands
  construct_bands (j ∷ js) bands = construct_band j >>= λ b. construct_bands js (bands ++ b ∷ [])
