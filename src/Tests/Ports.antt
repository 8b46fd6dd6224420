-- ===== src/Tests/Ports.antt =====
-- The port manager, with two allowed ports.
use frp.Prelude.{
  ℕ, ◌+◌, ◌≡◌, refl, str_eq_iff, Bool, true, false, some, List, [], ◌∷◌, ok, err, arith, ◌⊎◌,
}
use frp.Ports.{
  Manager, port_already_used, port_unavailable, port_not_allowed, no_available_port, new_manager,
  allowed_ports, take_port, acquire, release, clean_reserved_ports,
}
use frp.Ports.Consistent.{
  IsConsistent, Reach, fresh, call, perform, acquiring, releasing, new_manager-IsConsistent,
  Reach-IsConsistent,
}
use frp.Ports.Acquire.{Granted, acquire_given, acquire-Grants}
use frp.Ports.Reuse.{acquire-release, reserved_given_twice}

abbrev two_ports : List ℕ
two_ports = 6000 ∷ 6001 ∷ []

abbrev start : Manager
start = new_manager two_ports

abbrev all_available : ℕ → Bool
all_available p = true

abbrev with_ssh : Manager
with_ssh = (acquire all_available (6001 ∷ 6000 ∷ []) 100 "ssh" 0 start).1

abbrev without_ssh : Manager
without_ssh = release 200 6001 with_ssh

ssh_has_6001 :
    acquire all_available (6001 ∷ 6000 ∷ []) 100 "ssh" 0 start
    ≡ (ok 6001, take_port 100 "ssh" 6001 start)
unfolding acquire new_manager
ssh_has_6001 = refl

refusals :
    ((acquire all_available [] 101 "web" 6001 with_ssh).0 ≡ err port_already_used)
    × ((acquire all_available [] 101 "web" 7000 with_ssh).0 ≡ err port_not_allowed)
    × ((acquire (λ p. false) [] 101 "web" 6000 with_ssh).0 ≡ err port_unavailable)
    × ((acquire (λ p. false) (6000 ∷ []) 101 "web" 0 with_ssh).0 ≡ err no_available_port)
unfolding acquire new_manager
refusals = (refl, refl, refl, refl)

without_ssh-Reach : Reach two_ports (
    perform
      (releasing 200 6001)
      (perform (acquiring all_available (6001 ∷ 6000 ∷ []) 100 "ssh" 0) start))
unfolding new_manager
without_ssh-Reach =
    call (releasing 200 6001) tt
      (call (acquiring all_available (6001 ∷ 6000 ∷ []) 100 "ssh" 0) (refl, (refl, tt)) fresh)

Reach-IsConsistent_example : IsConsistent (allowed_ports two_ports) without_ssh
Reach-IsConsistent_example = Reach-IsConsistent without_ssh-Reach

acquire_given_example :
    acquire all_available [] 100 "ssh" 6000 start ≡ (ok 6000, take_port 100 "ssh" 6000 start)
unfolding new_manager
acquire_given_example =
    acquire_given (allowed_ports two_ports) all_available [] 100 "ssh" 6000 start (omega arith)
      (new_manager-IsConsistent two_ports)

with_ssh-Granted : Granted "ssh" 6001 start with_ssh
unfolding acquire new_manager
with_ssh-Granted =
    (acquire-Grants (allowed_ports two_ports) all_available (6001 ∷ 6000 ∷ []) 100 "ssh" start 0
      6001 (refl, (refl, tt)) (new_manager-IsConsistent two_ports) refl).3

acquire-Grants_example :
    ((◌≡◌ {A = ℕ} 0 0) ⊎ (◌≡◌ {A = ℕ} 0 6001))
    × (allowed_ports two_ports 6001 ≡ true)
    × (all_available 6001 ≡ true)
    × Granted "ssh" 6001 start with_ssh
unfolding acquire new_manager
acquire-Grants_example =
    acquire-Grants (allowed_ports two_ports) all_available (6001 ∷ 6000 ∷ []) 100 "ssh" start 0 6001
      (refl, (refl, tt)) (new_manager-IsConsistent two_ports) refl

acquire-release_example :
    (acquire all_available [] 90000 "ssh" 0
      (clean_reserved_ports 86600 (release 200 6001 with_ssh))).0
    ≡ ok 6001
acquire-release_example =
    acquire-release all_available [] 200 86600 90000 "ssh" 6001 start with_ssh with_ssh-Granted
      (omega arith) refl

reserved_given_twice_example :
    (acquire all_available [] 300 "web" 6001 without_ssh
      ≡ (ok 6001, take_port 300 "web" 6001 without_ssh))
    × (acquire all_available [] 301 "ssh" 0 (take_port 300 "web" 6001 without_ssh)
        ≡ (ok 6001, take_port 301 "ssh" 6001 (take_port 300 "web" 6001 without_ssh)))
    × (((take_port 301 "ssh" 6001 (take_port 300 "web" 6001 without_ssh)).contexts
          without_ssh.next).closed
        ≡ false)
    × ((take_port 301 "ssh" 6001 (take_port 300 "web" 6001 without_ssh)).used_ports 6001
        ≡ some (without_ssh.next + 1))
unfolding release acquire new_manager
reserved_given_twice_example =
    reserved_given_twice all_available all_available [] [] 300 301 "ssh" "web" 6001 0 without_ssh
      (omega arith) (ground (arith, str_eq_iff "web" "ssh")) refl refl (omega arith) refl refl refl
