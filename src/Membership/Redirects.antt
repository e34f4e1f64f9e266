-- ===== src/Membership/Redirects.antt =====
-- Which server a request is sent to.
use penn_mail_and_penn_drive.Base.{
  ℕ, zero, suc, ◌+◌, ◌%◌, ◌<◌, ◌≡◌, refl, subst, ◌⊎◌, inl, inr, Bool, true, false, Option, none,
  some, List, [], arith, if◌then◌else◌, nat_eq, list_eq, pair_eq, length, get_elem?,
}
use penn_mail_and_penn_drive.Base.Text.{Text}
use penn_mail_and_penn_drive.Membership.{
  HttpServer, is_alive, first_alive, redirect_to, get_roundrobin_redirect,
}

-- The place that the search looks at `i` places on.
abbrev pub place : ℕ → ℕ → ℕ → ℕ
place zero counter n = counter % n
place (suc i) counter n = place i ((counter + 1) % 18446744073709551616) n

-- The server at this place of the search, if there is one, is not alive.
abbrev pub IsDead : ℕ → List HttpServer → ℕ → Type 0
IsDead now servers at = (s : HttpServer) → get_elem? servers at ≡ some s → is_alive now s ≡ false

abbrev pub IsFound : ℕ → ℕ → ℕ → List HttpServer → HttpServer → Type 0
IsFound n counter now servers s =
    (i : ℕ) × (i < n)
    × (get_elem? servers (place i counter (length servers)) ≡ some s)
    × (is_alive now s ≡ true)

-- A search finds a server that is alive, or all the places it looks at are of dead ones.
abbrev Searched : ℕ → ℕ → ℕ → List HttpServer → Option HttpServer → Type 0
Searched n counter now servers none =
    (i : ℕ) → i < n → IsDead now servers (place i counter (length servers))
Searched n counter now servers (some s) = IsFound n counter now servers s

search_here :
    (n counter now : ℕ) (servers : List HttpServer) (r : Option HttpServer)
    → IsDead now servers (counter % length servers)
    → Searched n ((counter + 1) % 18446744073709551616) now servers r
    → Searched (suc n) counter now servers r
search_here n counter now servers none h k = λ i. at i
  where
    at : (i : ℕ) → i < suc n → IsDead now servers (place i counter (length servers))
    at zero l = h
    at (suc i) l = k i (omega arith)
search_here n counter now servers (some s) h (i, l, e, a) = (suc i, omega arith, e, a)

search_on :
    (n counter now : ℕ) (servers : List HttpServer)
    → Searched n
        ((counter + 1) % 18446744073709551616)
        now
        servers
        (first_alive n ((counter + 1) % 18446744073709551616) now servers)
    → Searched (suc n) counter now servers (first_alive (suc n) counter now servers)
unfolding first_alive
search_on n counter now servers more = looked (get_elem? servers (counter % length servers)) refl
  where
    next : ℕ
    next = (counter + 1) % 18446744073709551616

    alive_or :
        (s : HttpServer) (b : Bool)
        → get_elem? servers (counter % length servers) ≡ some s
        → is_alive now s ≡ b
        → Searched
            (suc n)
            counter
            now
            servers
            (if b then some s else first_alive n next now servers)
    alive_or s true e a = (zero, omega arith, e, a)
    alive_or s false e a =
        search_here n counter now servers _
          (λ t g. subst (λ (u : HttpServer). is_alive now u ≡ false) (same e g) a) more
      where
        same : {u v : HttpServer} {o : Option HttpServer} → o ≡ some u → o ≡ some v → u ≡ v
        same p q = cc

    looked :
        (o : Option HttpServer)
        → get_elem? servers (counter % length servers) ≡ o
        → Searched (suc n) counter now servers (elim o as (λ _. Option HttpServer) [
          | none ↦ first_alive n next now servers
          | some s ↦ if is_alive now s then some s else first_alive n next now servers
        ])
    looked none e = search_here n counter now servers _ (λ t g. cc) more
    looked (some s) e = alive_or s (is_alive now s) e refl

first_alive-Searched :
    (n counter now : ℕ) (servers : List HttpServer)
    → Searched n counter now servers (first_alive n counter now servers)
unfolding first_alive
first_alive-Searched zero counter now servers = λ i l. absurd (omega arith)
first_alive-Searched (suc n) counter now servers =
    search_on n counter now servers
      (first_alive-Searched n ((counter + 1) % 18446744073709551616) now servers)

-- A client is sent to a server that is alive, the one at some place that the search looks at; where
-- it gets no redirect, every place that the search looks at is of a server that is not alive.
pub get_roundrobin_redirect-alive :
    (servers : List HttpServer) (counter now : ℕ)
    → ((s : HttpServer) × IsFound (length servers) counter now servers s
        × (get_roundrobin_redirect servers counter now ≡ redirect_to s))
      ⊎ (((i : ℕ) → i < length servers → IsDead now servers (place i counter (length servers)))
          × (get_roundrobin_redirect servers counter now ≡ []))
unfolding get_roundrobin_redirect
get_roundrobin_redirect-alive servers counter now =
    told (first_alive (length servers) counter now servers)
      (first_alive-Searched (length servers) counter now servers)
  where
    told :
        (o : Option HttpServer)
        → Searched (length servers) counter now servers o
        → ((s : HttpServer) × IsFound (length servers) counter now servers s
            × ((elim o as (λ _. Text) [ none ↦ [] | some t ↦ redirect_to t ]) ≡ redirect_to s))
          ⊎ (((i : ℕ) → i < length servers → IsDead now servers (place i counter (length servers)))
              × ((elim o as (λ _. Text) [ none ↦ [] | some t ↦ redirect_to t ]) ≡ []))
    told none h = inr (h, refl)
    told (some s) h = inl (s, h, refl)
