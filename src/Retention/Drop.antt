-- ===== src/Retention/Drop.antt =====
-- retention.go: the days that `applyRetentionAt` drops and those that it leaves.
use Prim.Native.Nat.{ℕ}
use marchilogs.Base.{
  if◌then◌else◌, Bool-cases, Option-cases, keep_if, ℤ, pos, ◌-ℤ◌, ltb_ℤ, mem_bytes-sort_strings,
  Bytes, bytes_eq, bytes_eq_iff, mem_bytes, mem_bytes-append, keys, lookup, lookup-remove,
  mem_keys_of_lookup, set_of, mem_bytes-set_of, mem_bytes-keep_if, Result, err, ok, ◌≡◌, refl, ap,
  ◌∙◌, inl, inr, Bool, true, not, ◌&&◌, ◌||◌, none, List, [], ◌∷◌, ◌++◌, arith, ◌≤ℤ◌, false,
}
use marchilogs.Calendar.{Time, parse_partition_name, day_end, partition_name}
use marchilogs.Retention.{
  Days, drop_day, ends_before, is_expired, drop_days, parses, known_days, apply_retention_at,
}
use marchilogs.Calendar.Partition.{parse-partition_name, InCalendar}

dropped_manifest :
    (deadline : Time) (day : Bytes) (days : List Bytes) (s : Days)
    → lookup day (drop_days deadline days s).0.manifests
      ≡ (if mem_bytes day days && is_expired deadline day then none else lookup day s.manifests)
unfolding drop_days drop_day mem_bytes
dropped_manifest deadline day [] s = refl
dropped_manifest deadline day (d ∷ days) s = elim (Bool-cases (is_expired deadline d)) [
  | inl old ↦
      ap
        (λ (b : Bool).
          lookup day (drop_days deadline days (if b then drop_day d s else s)).0.manifests)
        old
      ∙ ground (
        arith,
        old,
        dropped_manifest deadline day days (drop_day d s),
        lookup-remove d day s.manifests,
        bytes_eq_iff d day,
      )
  | inr young ↦
      ap
        (λ (b : Bool).
          lookup day (drop_days deadline days (if b then drop_day d s else s)).0.manifests)
        young
      ∙ ground (arith, young, dropped_manifest deadline day days s, bytes_eq_iff d day)
]

dropped_directory :
    (deadline : Time) (day : Bytes) (days : List Bytes) (s : Days)
    → mem_bytes day (drop_days deadline days s).0.on_disk
      ≡ (not (mem_bytes day days && is_expired deadline day) && mem_bytes day s.on_disk)
unfolding drop_days drop_day mem_bytes
dropped_directory deadline day [] s = refl
dropped_directory deadline day (d ∷ days) s = elim (Bool-cases (is_expired deadline d)) [
  | inl old ↦
      ap
        (λ (b : Bool).
          mem_bytes day (drop_days deadline days (if b then drop_day d s else s)).0.on_disk)
        old
      ∙ ground (
        arith,
        old,
        dropped_directory deadline day days (drop_day d s),
        mem_bytes-keep_if (λ (name : Bytes). not (bytes_eq name d)) day s.on_disk,
        bytes_eq_iff d day,
        bytes_eq_iff day d,
      )
  | inr young ↦
      ap
        (λ (b : Bool).
          mem_bytes day (drop_days deadline days (if b then drop_day d s else s)).0.on_disk)
        young
      ∙ ground (arith, young, dropped_directory deadline day days s, bytes_eq_iff d day)
]

expired_parses :
    (deadline : Time) (r : Result Time) → ends_before deadline r ≡ true → parses r ≡ true
expired_parses deadline (err e) h = h
expired_parses deadline (ok day) h = refl

mem-known_days :
    (s : Days) (deadline : Time) (day : Bytes)
    → is_expired deadline day ≡ true
    → mem_bytes day (known_days s) ≡ (mem_bytes day (keys s.manifests) || mem_bytes day s.on_disk)
unfolding known_days is_expired
mem-known_days s deadline day h =
    let missing = λ (name : Bytes).
      parses (parse_partition_name name) && not (mem_bytes name (set_of (keys s.manifests))) in
    let only = keep_if missing s.on_disk in
    mem_bytes-sort_strings day (keys s.manifests ++ only)
    ∙ mem_bytes-append day (keys s.manifests) only
    ∙ ground (
      arith,
      mem_bytes-keep_if missing day s.on_disk,
      mem_bytes-set_of day (keys s.manifests),
      expired_parses deadline (parse_partition_name day) h,
    )

run :
    (period : ℤ) (now : Time) (s : Days)
    → ltb_ℤ (pos 0) period ≡ true
    → apply_retention_at period now s
      ≡ drop_days (now -ℤ period) (keep_if (is_expired (now -ℤ period)) (known_days s)) s
unfolding apply_retention_at
run period now s h =
    let all_days = keep_if (is_expired (now -ℤ period)) (known_days s) in
    ap (λ (b : Bool). if b then drop_days (now -ℤ period) all_days s else (s, 0)) h

-- Whether a day is among the days to drop.
listed :
    (deadline : Time) (s : Days) (day : Bytes)
    → (mem_bytes day (keep_if (is_expired deadline) (known_days s)) && is_expired deadline day)
      ≡ (is_expired deadline day && (mem_bytes day (keys s.manifests) || mem_bytes day s.on_disk))
listed deadline s day = elim (Bool-cases (is_expired deadline day)) [
  | inl old ↦ ground (
    arith,
    old,
    mem_bytes-keep_if (is_expired deadline) day (known_days s),
    mem-known_days s deadline day old,
  )
  | inr young ↦ ground (arith, young)
]

left_manifest :
    (deadline : Time) (s : Days) (day : Bytes)
    → lookup day (drop_days deadline (keep_if (is_expired deadline) (known_days s)) s).0.manifests
      ≡ (if is_expired deadline day then none else lookup day s.manifests)
left_manifest deadline s day =
    let days = keep_if (is_expired deadline) (known_days s) in
    elim (Option-cases (lookup day s.manifests)) [
      | inl absent ↦ ground (arith, absent, dropped_manifest deadline day days s)
      | inr (parts, found) ↦ ground (
        arith,
        found,
        dropped_manifest deadline day days s,
        listed deadline s day,
        mem_keys_of_lookup day s.manifests parts found,
      )
    ]

left_directory :
    (deadline : Time) (s : Days) (day : Bytes)
    → mem_bytes day (drop_days deadline (keep_if (is_expired deadline) (known_days s)) s).0.on_disk
      ≡ (not (is_expired deadline day) && mem_bytes day s.on_disk)
left_directory deadline s day =
    let days = keep_if (is_expired deadline) (known_days s) in
    ground (arith, dropped_directory deadline day days s, listed deadline s day)

left_days :
    (period : ℤ) (now : Time) (s : Days) (day : Bytes)
    → ltb_ℤ (pos 0) period ≡ true
    → let s' = (apply_retention_at period now s).0 in
      (lookup day s'.manifests
        ≡ (if is_expired (now -ℤ period) day then none else lookup day s.manifests))
      × (mem_bytes day s'.on_disk
          ≡ (not (is_expired (now -ℤ period) day) && mem_bytes day s.on_disk))
left_days period now s day h = (
  ap (λ (r : Days × ℕ). lookup day r.0.manifests) (run period now s h)
      ∙ left_manifest (now -ℤ period) s day,
  ap (λ (r : Days × ℕ). mem_bytes day r.0.on_disk) (run period now s h)
      ∙ left_directory (now -ℤ period) s day,
)

before_end :
    (deadline t day : Time)
    → t ≤ℤ day_end day
    → deadline ≤ℤ t
    → ltb_ℤ (day_end day) deadline ≡ false
before_end deadline t day h h' = ground arith

-- The day of a time is not dropped as long as that time is not before the deadline.
young-is_expired :
    (deadline t : Time)
    → InCalendar t
    → deadline ≤ℤ t
    → is_expired deadline (partition_name t) ≡ false
unfolding is_expired
young-is_expired deadline t c h =
    let (day, parsed, low, high) = parse-partition_name t c in
    ap (ends_before deadline) parsed ∙ before_end deadline t day high h

-- Retention with a positive period keeps the manifest and the directory of the day of every time that
-- is the period ago or later, where the time is in the calendar.
pub apply_retention_at_keeps :
    (period : ℤ) (now : Time) (s : Days) (t : Time)
    → ltb_ℤ (pos 0) period ≡ true
    → InCalendar t
    → (now -ℤ period) ≤ℤ t
    → let s' = (apply_retention_at period now s).0 in
      (lookup (partition_name t) s'.manifests ≡ lookup (partition_name t) s.manifests)
      × (mem_bytes (partition_name t) s'.on_disk ≡ mem_bytes (partition_name t) s.on_disk)
apply_retention_at_keeps period now s t h c recent =
    let day = partition_name t in
    let kept = left_days period now s day h in
    let young = young-is_expired (now -ℤ period) t c recent in
    (
      kept.0 ∙ ap (λ (b : Bool). if b then none else lookup day s.manifests) young,
      kept.1 ∙ ap (λ (b : Bool). not b && mem_bytes day s.on_disk) young,
    )
