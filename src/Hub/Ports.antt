-- ===== src/Hub/Ports.antt =====
-- findAvailablePort of pkg/hub/hub.go: the first port from 10000 on that no agent has.
use sshole.Base.{
  ℕ, zero, suc, ◌+◌, ◌≤◌, ◌<◌, ◌≡◌, ◌≢◌, inl, inr, Option, none, some, Str, arith, ℕ_discrete,
  nat_eq, length, Option-cases,
}
use sshole.Base.Dict.{Dict, lookup, erase, lookup-erase, length-erase}

abbrev pub first_port : ℕ
first_port = 10000

-- The loop; the fuel is the number of ports that may be passed.
unfoldable pub probe : ℕ → ℕ → Dict ℕ Str → Option ℕ
probe zero port ports = none
probe (suc fuel) port ports =
    let next = probe fuel (port + 1) ports in
    elim (lookup port ports) [ none ↦ some port | some agent ↦ next ]

unfoldable pub find_available_port : Dict ℕ Str → Option ℕ
unfolding probe
find_available_port ports = probe (length ports + 1) first_port ports

-- Above `port`, every port up to the result is taken, and the result is free.
abbrev pub IsFirstFree : Dict ℕ Str → ℕ → ℕ → Type 0
IsFirstFree ports low port =
    (low ≤ port)
    × (lookup port ports ≡ none)
    × ((q : ℕ) → low ≤ q → q < port → lookup q ports ≢ none)

probe-IsFirstFree :
    (fuel low : ℕ) (ports : Dict ℕ Str) {port : ℕ}
    → probe fuel low ports ≡ some port
    → IsFirstFree ports low port
unfolding probe
probe-IsFirstFree zero low ports h = absurd (cc)
probe-IsFirstFree (suc fuel) low ports {port} h = elim (Option-cases (lookup low ports)) [
  | inl free ↦ ground arith
  | inr (agent, taken) ↦
      let (above, free, below) =
        probe-IsFirstFree fuel (low + 1) ports {port = port} (ground arith) in
      (
        omega arith,
        free,
        λ q l u e. elim (ℕ_discrete low q) [
          | yes same ↦ ground arith
          | no other ↦ below q (omega arith) u e
        ],
      )
]

-- With more fuel than ports in a map that has all the taken ones from `low` on, the loop ends.
probe-total :
    (fuel low : ℕ) (ports view : Dict ℕ Str)
    → length view < fuel
    → ((q : ℕ) → low ≤ q → lookup q ports ≢ none → lookup q view ≢ none)
    → (port : ℕ) × (probe fuel low ports ≡ some port)
unfolding probe
probe-total zero low ports view l inc = absurd (omega arith)
probe-total (suc fuel) low ports view l inc = elim (Option-cases (lookup low ports)) [
  | inl free ↦ (low, ground arith)
  | inr (agent, taken) ↦
      let (port, e) =
        probe-total fuel (low + 1) ports (erase low view)
          (omega (arith, length-erase low view (inc low (omega arith) (λ n. ground arith))))
          (λ q above there gone.
            inc q (omega arith) there (ground (arith, lookup-erase q low view))) in
      (port, ground (arith, e))
]

-- A port is always found. It is free, and every port from 10000 up to it belongs to an agent.
pub find_available_port_lem :
    (ports : Dict ℕ Str)
    → (port : ℕ) × (find_available_port ports ≡ some port) × IsFirstFree ports first_port port
unfolding find_available_port
find_available_port_lem ports =
    let (port, e) =
      probe-total (length ports + 1) first_port ports ports (omega arith) (λ q _ there. there) in
    (port, e, probe-IsFirstFree (length ports + 1) first_port ports e)
