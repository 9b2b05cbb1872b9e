-- ===== src/Gc/Scan/Live.antt =====
-- The scan leaves the records of pods alone that wait, run or hold an address.
use spiderpool.Prelude.{
  ◌≡◌, refl, Bool, true, false, not, ◌&&◌, ◌||◌, Option, none, some, Text, text_eq, text_eq_refl,
  arith, Bool-cases, inl, inr, is_some,
}
use spiderpool.Gc.PodEntries.{is_ended, same_phase, pending, running}
use spiderpool.Gc.Scan.{
  node_check, pool_flag, endpoint_flags, decide_after, decide_present, decide, leave, Verdict,
}
use spiderpool.Gc.Status.{
  ScanConfig, ScanPod, Endpoint, Found, found, not_found, failed, Facts, go, is_empty,
  is_static_ip_pod, status_flags,
}

-- The endpoint, if there is one, has this uid.
abbrev pub agrees : Text → Found Endpoint → Bool
agrees uid (found e) = text_eq uid e.uid
agrees uid not_found = true
agrees uid failed = true

-- What the status of the pod says to leave alone, with whether the pod is a static one: the pod is
-- not being deleted and has not ended, and it waits to start, has an address, or runs without one
-- where such pods are not collected.
abbrev pub is_spared : ScanConfig → Bool → ScanPod → Bool
is_spared config static s =
    not (is_some s.pod.deletion_timestamp)
    && (not (is_ended s.pod.phase)
        && (same_phase s.pod.phase pending
            || (not (is_empty s.pod_ips)
                || (not static
                    && (same_phase s.pod.phase running && not config.gc_running_without_ips)))))

status_flags-spared :
    (config : ScanConfig) (f : Facts) (s : ScanPod) (static enabled : Bool)
    → is_spared config static s ≡ true
    → status_flags config f s static enabled ≡ go (false, false)
unfolding status_flags
status_flags-spared config f s static enabled h =
    let ended : is_ended s.pod.phase ≡ false = ground arith in
    let stays : is_some s.pod.deletion_timestamp ≡ false = ground arith in
    elim (Bool-cases (same_phase s.pod.phase pending)) [
      | inl waits ↦ rw (ended, waits) refl
      | inr starts ↦ elim (Bool-cases (is_empty s.pod_ips)) [
        | inr holds ↦ rw (ended, starts, stays, holds) refl
        | inl bare ↦
            let free : static ≡ false = ground arith in
            let runs : same_phase s.pod.phase running ≡ true = ground arith in
            let off : config.gc_running_without_ips ≡ false = ground arith in
            rw (ended, starts, stays, bare, free, runs, off) refl
      ]
    ]

endpoint_flags-agrees :
    (config : ScanConfig) (f : Facts) (s : ScanPod) (e : Found Endpoint) (static : Bool)
    → agrees s.pod.uid e ≡ true
    → endpoint_flags config f s e static false false ≡ go (false, false)
unfolding endpoint_flags
endpoint_flags-agrees config f s (found e) static h = rw h refl
endpoint_flags-agrees config f s not_found static h = refl
endpoint_flags-agrees config f s failed static h = refl

decide_after-leave :
    (config : ScanConfig) (f : Facts) (s : ScanPod) (static : Bool)
    → agrees s.pod.uid f.endpoint ≡ true
    → decide_after config f s s.pod.uid static (go (false, false)) ≡ some leave
unfolding decide_after pool_flag
decide_after-leave config f s static h =
    rw (text_eq_refl s.pod.uid, endpoint_flags-agrees config f s f.endpoint static h) refl

-- A record is left as it is, and neither its address nor its endpoint is released, if its pod has
-- the recorded uid, as the endpoint has if there is one, is not being deleted, has not ended, and
-- either waits to start, or has an address in its status, or is a running pod that is not static
-- while the setting that collects running pods without addresses is off. Of other pods that are not
-- deleted and have not ended, which have no address in their status, it says nothing.
pub decide-leave :
    (config : ScanConfig) (f : Facts) (s : ScanPod)
    → f.scan_pod ≡ found s
    → is_spared config
        (is_static_ip_pod config.entries.enable_stateful_set
          config.entries.enable_kubevirt_static_ip s.controller)
        s
      ≡ true
    → agrees s.pod.uid f.endpoint ≡ true
    → decide config f s.pod.uid ≡ some leave
unfolding decide decide_present
decide-leave config f s p h a = rw p (
    by_check
      (is_static_ip_pod config.entries.enable_stateful_set config.entries.enable_kubevirt_static_ip
        s.controller)
      (node_check config f (
        is_static_ip_pod config.entries.enable_stateful_set config.entries.enable_kubevirt_static_ip
          s.controller))
      h)
  where
    by_check :
        (static : Bool) (o : Option Bool)
        → is_spared config static s ≡ true
        → (elim o as (λ _. Option Verdict) [
          | none ↦ some leave
          | some enabled ↦
              decide_after config f s s.pod.uid static (status_flags config f s static enabled)
        ])
          ≡ some leave
    by_check static none k = refl
    by_check static (some enabled) k =
        rw (status_flags-spared config f s static enabled k)
          (decide_after-leave config f s static a)
