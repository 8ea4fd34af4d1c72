-- ===== src/Daemon/Bus/Diagnostics.antt =====
-- The RunDiagnostics method of src/DaemonBus.cpp.
use Prim.Native.String.{String}
use edge_ipc_daemon.Prelude.{
  ℕ, ◌-◌, ◌/◌, ◌^◌, ◌≡◌, refl, Bool, true, false, ◌&&◌, List, [], ◌∷◌, ◌++◌, Option, none, some,
  if◌then◌else◌, ◌==◌,
}
use edge_ipc_daemon.Daemon.State.{DaemonState}
use edge_ipc_daemon.Daemon.Bus.{prop_current_state}

-- `line.rfind(prefix, 0) == 0`.
abbrev starts_with : List ℕ → List ℕ → Bool
starts_with [] line = true
starts_with (c ∷ cs) [] = false
starts_with (c ∷ cs) (d ∷ ds) = c == d && starts_with cs ds

-- "VmRSS:".
abbrev vm_rss : List ℕ
vm_rss = b'V' ∷ b'm' ∷ b'R' ∷ b'S' ∷ b'S' ∷ 58 ∷ []

-- For the lines of /proc/self/status. `scan` is `sscanf` with the format "VmRSS: %lu kB", and gives the
-- number that it stores, if any.
unfoldable pub rss_kb : (List ℕ → Option ℕ) → List (List ℕ) → ℕ
rss_kb scan [] = 0
rss_kb scan (line ∷ lines) =
    let rest = rss_kb scan lines in
    if starts_with vm_rss line then (elim (scan line) [ none ↦ 0 | some kb ↦ kb ]) else rest

-- The four values of the reply; `processed_count` is the member of `Impl`, which nothing sets after the
-- constructor. `now` and `start_time` are in nanoseconds.
unfoldable pub method_diagnostics :
    (List ℕ → Option ℕ) → List (List ℕ) → ℕ → ℕ → ℕ → Option DaemonState → ℕ × ℕ × String × ℕ
method_diagnostics scan status processed_count start_time now state =
    (rss_kb scan status, processed_count, prop_current_state state, (now - start_time) / 10 ^ 9)

abbrev NoneStarts : List (List ℕ) → Type 0
NoneStarts [] = Unit {0}
NoneStarts (line ∷ lines) = (starts_with vm_rss line ≡ false) × NoneStarts lines

-- The memory is that of the first line that starts with the name.
rss_kb-append :
    (scan : List ℕ → Option ℕ) (before lines : List (List ℕ)) (line : List ℕ) (kb : ℕ)
    → NoneStarts before
    → starts_with vm_rss line ≡ true
    → scan line ≡ some kb
    → rss_kb scan (before ++ line ∷ lines) ≡ kb
unfolding rss_kb
rss_kb-append scan [] lines line kb h l e = rw (l, e) refl
rss_kb-append scan (other ∷ before) lines line kb (other_name, h) l e =
    rw other_name (rss_kb-append scan before lines line kb h l e)

-- Without such a line it is zero.
rss_kb_absent :
    (scan : List ℕ → Option ℕ) (lines : List (List ℕ)) → NoneStarts lines → rss_kb scan lines ≡ 0
unfolding rss_kb
rss_kb_absent scan [] h = refl
rss_kb_absent scan (line ∷ lines) (other_name, h) = rw other_name (rss_kb_absent scan lines h)
