-- ===== src/Normalize.antt =====
-- internal/normalize/normalizer.go: NUMA node and CPU indices brought into range. What the operating
-- system reports is a parameter; the log lines are left out.
use hioload_ws.Prelude.{
  ◌<◌, ◌||◌, ◌≡◌, ◌≤◌, Bool, Bool-cases, arith, if◌then◌else◌, inl, inr, ltb, not, ℕ,
}
use hioload_ws.Prelude.Int.{ltb_ℤ, negsuc, pos, ℤ}

-- `requested < 0 || requested >= limit`
abbrev pub out_of_bounds : ℤ → ℤ → Bool
out_of_bounds requested limit = ltb_ℤ requested (pos 0) || not (ltb_ℤ requested limit)

-- `NUMANode`
unfoldable pub numa_node : ℤ → ℤ → ℤ
numa_node requested max_nodes =
    if ltb_ℤ max_nodes (pos 1)
    then pos 0
    else if out_of_bounds requested max_nodes
    then pos 0
    else requested

-- `NUMANodeAuto`, with the results of `NUMANodes` and `CurrentNUMANodeID`.
unfoldable pub numa_node_auto : ℤ → ℤ → ℤ → ℤ
numa_node_auto cnt node requested =
    if ltb_ℤ requested (pos 0)
    then (if out_of_bounds node cnt then pos 0 else node)
    else numa_node requested cnt

-- `CPUIndex`
unfoldable pub cpu_index : ℤ → ℤ → ℤ
cpu_index requested max_cpus =
    if ltb_ℤ max_cpus (pos 1)
    then pos 0
    else if out_of_bounds requested max_cpus
    then pos 0
    else requested

-- `CPUIndexAuto`, with the result of `runtime.NumCPU`.
unfoldable pub cpu_index_auto : ℤ → ℤ → ℤ
cpu_index_auto cnt requested = if ltb_ℤ requested (pos 0) then pos 0 else cpu_index requested cnt

-- Where at least one node is reported, `NUMANodeAuto` gives one of the reported nodes, whatever is
-- asked for and whatever the current node is said to be.
pub numa_node_auto-lt :
    (cnt : ℕ) (node requested : ℤ)
    → 1 ≤ cnt
    → (n : ℕ) × (numa_node_auto (pos cnt) node requested ≡ pos n) × (n < cnt)
unfolding numa_node_auto numa_node
numa_node_auto-lt cnt node (pos r) h = elim (Bool-cases (ltb r cnt)) [
  | inl lt ↦ (r, ground arith, ground arith)
  | inr ge ↦ (0, ground arith, ground arith)
]
numa_node_auto-lt cnt (pos m) (negsuc r) h = elim (Bool-cases (ltb m cnt)) [
  | inl lt ↦ (m, ground arith, ground arith)
  | inr ge ↦ (0, ground arith, ground arith)
]
numa_node_auto-lt cnt (negsuc m) (negsuc r) h = (0, ground arith, ground arith)

-- A CPU that exists is kept, and any other index becomes 0.
pub cpu_index_auto_lem :
    (cnt r : ℕ)
    → (cpu_index_auto (pos cnt) (pos r) ≡ (if ltb r cnt then pos r else pos 0))
      × (cpu_index_auto (pos cnt) (negsuc r) ≡ pos 0)
unfolding cpu_index_auto cpu_index
cpu_index_auto_lem cnt r = (ground arith, ground arith)
