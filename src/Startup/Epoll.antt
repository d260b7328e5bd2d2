-- ===== src/Startup/Epoll.antt =====
-- Either epoll watches all descriptors, or it is closed again.
use zprd.Prelude.{
  ℕ, zero, suc, ◌≡◌, ◌⊎◌, inl, inr, refl, ap, List, [], ◌∷◌, Option, none, some, map,
}
use zprd.Startup.{epoll_create, epoll_add, Event, execute, ◌>>=◌}
use zprd.Startup.Descriptors.{left_open, remove_if_self}
use zprd.Startup.Main.{do_epoll_add, add_servers, open_epoll}

abbrev pub added : ℕ → ℕ → Event
added epoll_fd fd = (epoll_add epoll_fd fd, some 0)

-- The descriptors were added, or the last calls are a refused one and close.
abbrev EndsIn : ℕ → List ℕ → List Event × Option ℕ → Type 0
EndsIn epoll_fd fds (events, r) =
    ((r ≡ some epoll_fd) × (events ≡ map (added epoll_fd) fds))
    ⊎ ((r ≡ none) × (left_open (epoll_fd ∷ []) events ≡ []))

add_servers_cases :
    (epoll_fd : ℕ) (server_fds : List (ℕ × ℕ)) (answers : List (Option ℕ))
    → EndsIn epoll_fd
        (map (λ x. x.1) server_fds)
        (execute answers (add_servers epoll_fd server_fds))
unfolding execute add_servers do_epoll_add ◌>>=◌
add_servers_cases epoll_fd [] answers = inl (refl, refl)
add_servers_cases epoll_fd ((f, fd) ∷ fds) [] = inr (refl, remove_if_self epoll_fd)
add_servers_cases epoll_fd ((f, fd) ∷ fds) (none ∷ []) = inr (refl, remove_if_self epoll_fd)
add_servers_cases epoll_fd ((f, fd) ∷ fds) (none ∷ r ∷ answers) =
    inr (refl, remove_if_self epoll_fd)
add_servers_cases epoll_fd ((f, fd) ∷ fds) (some (suc n) ∷ []) = inr (refl, remove_if_self epoll_fd)
add_servers_cases epoll_fd ((f, fd) ∷ fds) (some (suc n) ∷ r ∷ answers) =
    inr (refl, remove_if_self epoll_fd)
add_servers_cases epoll_fd ((f, fd) ∷ fds) (some zero ∷ answers) =
    elim (add_servers_cases epoll_fd fds answers) [
      | inl (r, calls) ↦ inl (r, ap (λ es. added epoll_fd fd ∷ es) calls)
      | inr undone ↦ inr undone
    ]

-- The set-up of epoll always ends in one of two ways: the tun device and every server socket were
-- added, each once and in order, and the result is the epoll descriptor; or main ends with the
-- code 1, and no epoll descriptor is left open.
pub open_epoll-left_open :
    (local_fd : ℕ) (server_fds : List (ℕ × ℕ)) (answers : List (Option ℕ))
    → let (events, r) = execute answers (open_epoll local_fd server_fds) in
      ((epoll_fd : ℕ) × (r ≡ some epoll_fd)
        × (events
            ≡ (epoll_create, some epoll_fd)
              ∷ map (added epoll_fd) (local_fd ∷ map (λ x. x.1) server_fds)))
      ⊎ ((r ≡ none) × (left_open [] events ≡ []))
unfolding execute open_epoll do_epoll_add ◌>>=◌
open_epoll-left_open local_fd server_fds [] = inr (refl, refl)
open_epoll-left_open local_fd server_fds (none ∷ answers) = inr (refl, refl)
open_epoll-left_open local_fd server_fds (some fd ∷ []) = inr (refl, remove_if_self fd)
open_epoll-left_open local_fd server_fds (some fd ∷ none ∷ []) = inr (refl, remove_if_self fd)
open_epoll-left_open local_fd server_fds (some fd ∷ none ∷ r ∷ answers) =
    inr (refl, remove_if_self fd)
open_epoll-left_open local_fd server_fds (some fd ∷ some (suc n) ∷ []) =
    inr (refl, remove_if_self fd)
open_epoll-left_open local_fd server_fds (some fd ∷ some (suc n) ∷ r ∷ answers) =
    inr (refl, remove_if_self fd)
open_epoll-left_open local_fd server_fds (some fd ∷ some zero ∷ answers) =
    elim (add_servers_cases fd server_fds answers) [
      | inl (r, calls) ↦
          inl (fd, r, ap (λ es. (epoll_create, some fd) ∷ added fd local_fd ∷ es) calls)
      | inr undone ↦ inr undone
    ]
