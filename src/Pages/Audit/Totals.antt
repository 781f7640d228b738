-- ===== src/Pages/Audit/Totals.antt =====
-- The counters of web/src/pages/Audit.tsx.
use infra_orch_studio.Common.{ℕ, suc, ◌+◌, ◌≡◌, refl, ap, List, [], ◌∷◌, Text, keep, length, arith}
use infra_orch_studio.Pages.Audit.{
  AuditRecord, AuditFilter, everything, approvals, mutations, destroy, failures, passes, is_found,
  filtered, Counts, count_one, counts_from, counts,
}

-- The number of the records that pass a filter.
abbrev pub passing : AuditFilter → List AuditRecord → ℕ
passing filter items = length (keep (passes filter) items)

abbrev pub CountsOf : Counts → List AuditRecord → Counts → Type 0
CountsOf acc items c =
    (c.total ≡ acc.total + length items)
    × (c.approvals ≡ acc.approvals + passing approvals items)
    × (c.destroy ≡ acc.destroy + passing destroy items)
    × (c.failed ≡ acc.failed + passing failures items)
    × (c.mutations ≡ acc.mutations + passing mutations items)

counts_from_lem :
    (items : List AuditRecord) (acc : Counts) → CountsOf acc items (counts_from acc items)
unfolding counts_from count_one passes
counts_from_lem [] acc = ground arith
counts_from_lem (item ∷ items) acc = ground (arith, counts_from_lem items (count_one acc item))

keep_true : (items : List AuditRecord) → length (keep (passes everything) items) ≡ length items
unfolding passes
keep_true [] = refl
keep_true (x ∷ xs) = ap suc (keep_true xs)

-- The counter that belongs to a filter.
abbrev pub counter : AuditFilter → Counts → ℕ
counter everything c = c.total
counter approvals c = c.approvals
counter mutations c = c.mutations
counter destroy c = c.destroy
counter failures c = c.failed

abbrev no_counts : Counts
no_counts = record { total = 0; approvals = 0; destroy = 0; failed = 0; mutations = 0 }

-- Each counter is the number of the records that its filter lets through.
pub counts_lem :
    (items : List AuditRecord) (f : AuditFilter)
    → counter f (counts items) ≡ length (keep (passes f) items)
unfolding counts passes
counts_lem items everything = omega (arith, (counts_from_lem items no_counts).0, keep_true items)
counts_lem items approvals = omega (arith, (counts_from_lem items no_counts).1)
counts_lem items destroy = omega (arith, (counts_from_lem items no_counts).2)
counts_lem items failures = omega (arith, (counts_from_lem items no_counts).3)
counts_lem items mutations = omega (arith, (counts_from_lem items no_counts).4)

keep_found :
    (f : AuditFilter) (search : Text) (items : List AuditRecord)
    → keep (passes f) (keep (is_found search f) items) ≡ keep (is_found search f) items
unfolding is_found
keep_found f search [] = refl
keep_found f search (x ∷ xs) = ground (arith, keep_found f search xs)

-- Whatever the search, when a filter is chosen its counter equals the total, so each counter is
-- that of the records which the page lists.
pub chosen_counts :
    (f : AuditFilter) (records : List AuditRecord) (search : Text)
    → let c = counts (filtered f records search) in
      (counter f c ≡ c.total) × (c.total ≡ length (filtered f records search))
unfolding filtered
chosen_counts f records search =
    let shown = keep (is_found search f) records in
    let total = counts_lem shown everything in
    let all_shown = keep_true shown in
    ground (arith, counts_lem shown f, keep_found f search records)
