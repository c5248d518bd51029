-- ===== src/Offline/Guarded.antt =====
-- The guard holds exactly while someone is inside it.
use linux_rag_t.Prelude.{
  ◌<>◌, if◌then◌else◌, ◌<◌, ◌∙◌, ap, refl, none, arith, Bool, Option, String, ℕ, some, zero, suc,
  ◌≡◌,
}
use linux_rag_t.Offline.{
  connect, connected, Call, Host, extract_host, guarded_call, is_remote_host, offline_error, leave,
  enter, State, original, guarded, initial,
}

-- A sequence of entries and exits, with the number of those inside; only who is inside can leave.
pub data Inside : ℕ → State → Type 0 where
  outside : Inside 0 initial
  entering : {n : ℕ} {s : State} → Inside n s → Inside (suc n) (enter s)
  leaving : {n : ℕ} {s : State} → Inside (suc n) s → Inside n (leave s)

-- The state by the number of those inside.
abbrev pub expected : ℕ → State
expected zero = initial
expected (suc n) = record {
  create_connection = guarded;
  install_count = suc n;
  saved = some original;
}

enter-expected : (n : ℕ) → enter (expected n) ≡ expected (suc n)
unfolding enter
enter-expected zero = refl
enter-expected (suc n) = ground arith

leave-expected : (n : ℕ) → leave (expected (suc n)) ≡ expected n
unfolding leave
leave-expected zero = refl
leave-expected (suc n) = ground arith

Inside-expected : (n : ℕ) (s : State) → Inside n s → s ≡ expected n
Inside-expected n s outside = refl
Inside-expected n s (entering {n = m} {s = t} w) =
    ap enter (Inside-expected m t w) ∙ enter-expected m
Inside-expected n s (leaving {n = m} {s = t} w) =
    ap leave (Inside-expected (suc m) t w) ∙ leave-expected m

-- What a call comes to while someone is inside.
abbrev pub allowed : (String → Option Bool) → Option String → Call
allowed ip_loopback none = connected
allowed ip_loopback (some host) =
    if is_remote_host ip_loopback host
    then offline_error ("outbound network access blocked for host " <> host)
    else connected

allowed-guarded :
    (ip_loopback : String → Option Bool) (s : State) (host : Option String)
    → s.saved ≡ some original
    → guarded_call ip_loopback s host ≡ allowed ip_loopback host
allowed-guarded ip_loopback s none h = rw h refl
allowed-guarded ip_loopback s (some host) h = rw h refl

-- However the entries and exits of threads interleave: while someone is inside the guard, a
-- connection to a remote host raises and any other is made by the original function; once everyone
-- has left, the original function is back and nothing of the guard is left.
pub connect-Inside :
    (ip_loopback : String → Option Bool) (n : ℕ) (s : State)
    → Inside n s
    → (n ≡ 0 → s ≡ initial)
      × (0 < n
          → (address : Host)
          → connect ip_loopback s address ≡ allowed ip_loopback (extract_host address))
unfolding connect
connect-Inside ip_loopback n s w = (
  λ z. Inside-expected n s w ∙ ap expected z,
  λ p address. inside n (Inside-expected n s w) p address,
)
  where
    inside :
        (m : ℕ)
        → s ≡ expected m
        → 0 < m
        → (address : Host)
        → connect ip_loopback s address ≡ allowed ip_loopback (extract_host address)
    inside zero e p address = absurd (omega arith)
    inside (suc m) e p address =
        ap (λ t. connect ip_loopback t address) e
        ∙ allowed-guarded ip_loopback (expected (suc m)) (extract_host address) refl
