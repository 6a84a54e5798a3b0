-- ===== src/Errors/CollectorLaws.antt =====
-- The collector of the processors, processors/error_collector.go: its bound and its counts.
use nectar.Prelude.{
  ℕ, suc, ◌+◌, ◌≤◌, ◌<◌, ◌≡◌, ◌≢◌, refl, ap, ◌∙◌, inl, inr, none, some, List, [], ◌∷◌, leb,
  if-cases, leb→le, option-cases_eq, length, Text, text_discrete, arith, Option-cases,
}
use nectar.Prelude.Dict.{lookup, insert, erase, length-erase, length-insert_new, length-insert_old}
use nectar.Errors.Collector.{
  CollectedError, ErrorCollector, new_error_collector, Occurrence, signature_of, find_oldest,
  new_collected, collect_error, get_error_count, get_total_error_count, clear_collector,
  keys_to_delete, delete_keys, cleanup_collector, CollectorCall, collected, cleared, cleaned,
  collector_run, sum_counts,
}

-- The oldest key is that of the best entry so far or one of the map's.
find_oldest-found :
    (best : Text × ℕ) (m : List (Text × CollectedError))
    → lookup text_discrete (find_oldest best m) m ≡ none
    → find_oldest best m ≡ best.0
unfolding find_oldest lookup
find_oldest-found best [] h = refl
find_oldest-found best ((key, e) ∷ m) h =
    ground (arith, find_oldest-found best m, find_oldest-found (key, e.last_seen) m)

-- The oldest key of a map that is not empty is one of its keys.
find_oldest-key :
    (e : Text × CollectedError) (m : List (Text × CollectedError))
    → lookup text_discrete (find_oldest ([], 0) (e ∷ m)) (e ∷ m) ≢ none
unfolding find_oldest lookup
find_oldest-key (key, e) m h = ground (arith, find_oldest-found (key, e.last_seen) m)

length-insert-le :
    (k : Text) (v : CollectedError) (m : List (Text × CollectedError))
    → length (insert text_discrete k v m) ≤ suc (length m)
unfolding insert
length-insert-le k v [] = ground arith
length-insert-le k v (e ∷ m) = ground (arith, length-insert-le k v m)

length-erase-le :
    (k : Text) (m : List (Text × CollectedError)) → length (erase text_discrete k m) ≤ length m
unfolding erase
length-erase-le k [] = ground arith
length-erase-le k (e ∷ m) = ground (arith, length-erase-le k m)

length-delete_keys-le :
    (keys : List Text) (m : List (Text × CollectedError)) → length (delete_keys keys m) ≤ length m
unfolding delete_keys
length-delete_keys-le [] m = omega arith
length-delete_keys-le (k ∷ keys) m =
    omega (arith, length-delete_keys-le keys (erase text_discrete k m), length-erase-le k m)

length-evict :
    (m : List (Text × CollectedError))
    → 0 < length m
    → length (erase text_discrete (find_oldest ([], 0) m) m) < length m
length-evict [] h = omega (arith, h)
length-evict (e ∷ m) _ =
    let key = find_oldest ([], 0) (e ∷ m) in
    elim (Option-cases (lookup text_discrete key (e ∷ m))) [
      | inl n ↦ absurd (find_oldest-key e m n)
      | inr (v, f) ↦ omega (arith, length-erase text_discrete key (e ∷ m) v f)
    ]

collect_error-length :
    (o : Occurrence) (c : ErrorCollector)
    → 0 < c.max_errors
    → length c.errors ≤ c.max_errors
    → (length (collect_error o c).errors ≤ c.max_errors)
      × ((collect_error o c).max_errors ≡ c.max_errors)
unfolding collect_error
collect_error-length o c hm h =
    let sig = signature_of o in
    let Good : ErrorCollector → Type 0 =
      λ d. (length d.errors ≤ c.max_errors) × (d.max_errors ≡ c.max_errors) in
    option-cases_eq Good (lookup text_discrete sig c.errors) _ _
      (λ n.
        if-cases
          (λ m.
            (length (insert text_discrete sig (new_collected o) m) ≤ c.max_errors)
            × (c.max_errors ≡ c.max_errors))
          (leb c.max_errors (length c.errors)) _ _
          (λ t. (
            omega (
              arith,
              leb→le c.max_errors (length c.errors) t,
              hm,
              length-insert-le sig (new_collected o)
                  (erase text_discrete (find_oldest ([], 0) c.errors) c.errors),
              length-evict c.errors,
            ),
            refl,
          ))
          (λ f. (ground (arith, f, length-insert-le sig (new_collected o) c.errors), refl)))
      (λ e s. (
        omega (
          arith,
          h,
          length-insert_old text_discrete sig (record e { count = suc e.count; last_seen = o.now })
              c.errors e s,
        ),
        refl,
      ))

run_keeps :
    (m : ℕ) (cs : List CollectorCall) (c : ErrorCollector)
    → 0 < m
    → length c.errors ≤ m
    → c.max_errors ≡ m
    → (length (collector_run cs c).errors ≤ m) × ((collector_run cs c).max_errors ≡ m)
unfolding collector_run clear_collector cleanup_collector
run_keeps m [] c h l e = (l, e)
run_keeps m (collected o ∷ cs) c h l e =
    let k = collect_error-length o c (omega (arith, h, e)) (omega (arith, l, e)) in
    run_keeps m cs (collect_error o c) h (omega (arith, k.0, e)) (k.1 ∙ e)
run_keeps m (cleared ∷ cs) c h l e = run_keeps m cs (clear_collector c) h (omega arith) e
run_keeps m (cleaned now max_age ∷ cs) c h l e =
    run_keeps m cs (cleanup_collector now max_age c) h
      (omega (arith, l, length-delete_keys-le (keys_to_delete now max_age c.errors) c.errors)) e

-- A collector for at least one error, through any calls of `CollectError`, `Clear` and
-- `cleanupOldErrors`, never holds more errors than its maximum.
collector_run-bounded :
    (max_errors : ℕ) (cs : List CollectorCall)
    → 0 < max_errors
    → get_error_count (collector_run cs (new_error_collector max_errors)) ≤ max_errors
unfolding get_error_count new_error_collector
collector_run-bounded max_errors cs h =
    let (b, e) = run_keeps max_errors cs (new_error_collector max_errors) h (omega arith) refl in b

sum_counts-insert_new :
    (k : Text) (v : CollectedError) (m : List (Text × CollectedError))
    → lookup text_discrete k m ≡ none
    → sum_counts (insert text_discrete k v m) ≡ v.count + sum_counts m
unfolding lookup insert
sum_counts-insert_new k v [] h = refl
sum_counts-insert_new k v (e ∷ m) h = ground (arith, sum_counts-insert_new k v m)

sum_counts-insert_old :
    (k : Text) (v w : CollectedError) (m : List (Text × CollectedError))
    → lookup text_discrete k m ≡ some w
    → sum_counts (insert text_discrete k v m) + w.count ≡ v.count + sum_counts m
unfolding lookup insert
sum_counts-insert_old k v w [] h = ground arith
sum_counts-insert_old k v w (e ∷ m) h = ground (arith, sum_counts-insert_old k v w m)

collect_error-known :
    (o : Occurrence) (c : ErrorCollector) (e : CollectedError)
    → lookup text_discrete (signature_of o) c.errors ≡ some e
    → (collect_error o c).errors
      ≡ insert text_discrete
          (signature_of o)
          (record e { count = suc e.count; last_seen = o.now })
          c.errors
unfolding collect_error
collect_error-known o c e s = rw (s, collect_error) refl

collect_error-new :
    (o : Occurrence) (c : ErrorCollector)
    → length c.errors < c.max_errors
    → lookup text_discrete (signature_of o) c.errors ≡ none
    → (collect_error o c).errors ≡ insert text_discrete (signature_of o) (new_collected o) c.errors
unfolding collect_error
collect_error-new o c h n =
    rw (n, collect_error)
      (if-cases
        (λ m.
          insert text_discrete (signature_of o) (new_collected o) m
          ≡ insert text_discrete (signature_of o) (new_collected o) c.errors)
        (leb c.max_errors (length c.errors)) _ _ (λ t. ground (arith, t, h)) (λ _. refl))

-- Where there is room, `CollectError` adds one to `GetTotalErrorCount`, and
-- to `GetErrorCount` only if the error is new.
pub get_total_error_count-collect :
    (o : Occurrence) (c : ErrorCollector)
    → length c.errors < c.max_errors
    → (get_total_error_count (collect_error o c) ≡ suc (get_total_error_count c))
      × (lookup text_discrete (signature_of o) c.errors ≢ none
          → get_error_count (collect_error o c) ≡ get_error_count c)
      × (lookup text_discrete (signature_of o) c.errors ≡ none
          → get_error_count (collect_error o c) ≡ suc (get_error_count c))
unfolding get_total_error_count get_error_count
get_total_error_count-collect o c h =
    let sig = signature_of o in
    elim (Option-cases (lookup text_discrete sig c.errors)) [
      | inl n ↦ (
        ap sum_counts (collect_error-new o c h n)
            ∙ sum_counts-insert_new sig (new_collected o) c.errors n
            ∙ omega arith,
        (λ k. absurd (k n)),
        (λ _.
            ap length (collect_error-new o c h n)
            ∙ length-insert_new text_discrete sig (new_collected o) c.errors n),
      )
      | inr (e, s) ↦
          let e' = record e { count = suc e.count; last_seen = o.now } in
          (
            ap sum_counts (collect_error-known o c e s)
                ∙ omega (arith, sum_counts-insert_old sig e' e c.errors s),
            (λ _.
                ap length (collect_error-known o c e s)
                ∙ length-insert_old text_discrete sig e' c.errors e s),
            (λ n. ground (arith, n, s)),
          )
    ]
