-- ===== src/Tests/Offline.antt =====
-- Two threads inside the guard.
use linux_rag_t.Prelude.{
  ℕ, lower, strip, ◌==◌, if◌then◌else◌, ◌<◌, refl, none, some, false, Bool, Option, String, ◌≡◌,
}
use linux_rag_t.Offline.Guarded.{entering, allowed, connect-Inside}
use linux_rag_t.Offline.Guarded.{outside}
use linux_rag_t.Offline.{
  connect, enter, Host, State, extract_host, offline_error, text_host, initial,
}

abbrev two_inside : State
two_inside = enter (enter initial)

abbrev address_of : String → Option Bool
address_of s = if s == "198.51.100.10" then some false else none

connect-Inside_example :
    (◌≡◌ {A = ℕ} 2 0 → two_inside ≡ initial)
    × (0 < 2
        → (address : Host)
        → connect address_of two_inside address ≡ allowed address_of (extract_host address))
connect-Inside_example = connect-Inside address_of 2 two_inside (entering (entering outside))

blocked :
    connect address_of two_inside (text_host " 198.51.100.10 ")
    ≡ offline_error "outbound network access blocked for host 198.51.100.10"
unfolding connect enter strip lower
blocked = refl
