-- ===== src/Reactor/Fresh.antt =====
-- The table of socket/epoll/Reactor/main.cpp before anything has run: the zeroed global array.
use codespaces_blank.Prelude.{
  ℕ, zero, suc, ◌≡◌, refl, arith, [], List, replicate, get_or, length-replicate,
}
use codespaces_blank.Reactor.{Event, zeroed, Server, event}
use codespaces_blank.Reactor.Table.{IsTable, length-blank}

get_or-replicate : (n i : ℕ) (e d : Event) → e ≡ d → get_or (replicate n e) i d ≡ d
get_or-replicate zero i e d h = refl
get_or-replicate (suc n) zero e d h = h
get_or-replicate (suc n) (suc i) e d h = get_or-replicate n i e d h

-- `gevents`
unfoldable pub slots : List Event
slots = replicate 1025 zeroed

abbrev pub fresh : Server
fresh = record { gevents = slots; log = [] }

pub fresh-IsTable : IsTable fresh
unfolding slots
fresh-IsTable = record {
  slots = length-replicate {A = Event} 1025 zeroed;
  fit = λ i. rw (get_or-replicate 1025 i zeroed zeroed refl) (length-blank, omega arith);
}

pub event-fresh : (i : ℕ) → event fresh i ≡ zeroed
unfolding slots
event-fresh i = get_or-replicate 1025 i zeroed zeroed refl
