-- ===== src/Apps/Numbers.antt =====
-- How many addresses an auto-created pool gets: pkg/ipam/utils.go, `getAutoPoolIPNumber`, and
-- pkg/applicationcontroller/applicationinformers/utils.go.
use spiderpool.Prelude.{
  ℕ, ◌+◌, Bool, true, false, [], ◌∷◌, Option, none, some, Text, ltb, ◌==◌, if◌then◌else◌,
}
use spiderpool.Pool.Affinity.{cut}

unfoldable pub get_app_replicas : Option ℕ → ℕ
get_app_replicas none = 0
get_app_replicas (some n) = n

abbrev pub at_least_one_of_none : ℕ → ℕ
at_least_one_of_none n = if n == 0 then 1 else n

-- Parallelism and completions; the API server refuses negative ones.
unfoldable pub calculate_job_pod_num : Option ℕ → Option ℕ → ℕ
calculate_job_pod_num (some p) none = at_least_one_of_none p
calculate_job_pod_num none (some c) = at_least_one_of_none c
calculate_job_pod_num (some p) (some c) = if c == 0 then 1 else c
calculate_job_pod_num none none = 1

-- The top controller of a pod, with the numbers that are read; `third_party` is any API version or
-- kind that is not Kubernetes' own.
pub data App : Type 0 where
  pod third_party : App
  deployment replica_set stateful_set : Option ℕ → App
  daemon_set : ℕ → App
  job cron_job : Option ℕ → Option ℕ → App

-- What `strconv.Atoi` reads
pub data Parsed : Type 0 where
  not_a_number negative : Parsed
  number : ℕ → Parsed

unfoldable pub count_code : ℕ → Text → ℕ
count_code c [] = 0
count_code c (d ∷ s) = (if d == c then 1 else 0) + count_code c s

abbrev pub after_plus : Text × Text × Bool → Text → Bool × Text
after_plus (before, after, true) s = (true, after)
after_plus (before, after, false) s = (false, s)

-- Whether the number is flexible, and the text that is parsed; none is an invalid input.
unfoldable pub get_pool_ip_number : (Text → Parsed) → Text → Option (Bool × Parsed)
unfolding count_code cut
get_pool_ip_number atoi s =
    if ltb 1 (count_code b'+' s)
    then none
    else let (flexible, t) = after_plus (cut b'+' s) s in
      elim (atoi t) [
        | not_a_number ↦ none
        | negative ↦ some (flexible, negative)
        | number k ↦ some (flexible, number k)
      ]

-- The replicas of an application, none for a third party.
abbrev pub app_replicas : App → Option ℕ
unfolding get_app_replicas calculate_job_pod_num
app_replicas pod = some 1
app_replicas third_party = none
app_replicas (deployment n) = some (get_app_replicas n)
app_replicas (replica_set n) = some (get_app_replicas n)
app_replicas (stateful_set n) = some (get_app_replicas n)
app_replicas (daemon_set n) = some n
app_replicas (job p c) = some (calculate_job_pod_num p c)
app_replicas (cron_job p c) = some (calculate_job_pod_num p c)

abbrev pub of_number : Option ℕ → Option (Bool × Parsed) → Option ℕ
of_number replicas (some (true, number k)) =
    some (k + elim replicas as (λ _. ℕ) [ none ↦ 0 | some r ↦ r ])
of_number replicas (some (false, number k)) = some k
of_number replicas _ = none

-- `annotation` is the value of `ippool-ip-number`; none is an error.
abbrev pub of_application : (Text → Parsed) → Option Text → App → Option ℕ
unfolding get_pool_ip_number get_app_replicas calculate_job_pod_num
of_application atoi (some s) app = of_number (app_replicas app) (get_pool_ip_number atoi s)
of_application atoi none app = app_replicas app

-- A pod of its own gets one address, whatever the annotation.
unfoldable pub get_auto_pool_ip_number : (Text → Parsed) → Option Text → App → Option ℕ
unfolding get_pool_ip_number get_app_replicas calculate_job_pod_num
get_auto_pool_ip_number atoi annotation pod = some 1
get_auto_pool_ip_number atoi annotation app = of_application atoi annotation app
