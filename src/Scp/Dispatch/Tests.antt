-- ===== src/Scp/Dispatch/Tests.antt =====
-- The scp middleware without handlers at the command "scp -r", and the reading of "scp -v -t docs".
use wish.Base.{ℕ, false, codes, [], ◌∷◌, none, bytes_eq, ◌≡◌, refl}
use wish.Session.{Session, World, nothing}
use wish.Scp.Dispatch.{Link, Texts, scp_middleware}
use wish.Scp.Dispatch.Silent.{scp_middleware-NoDirection}

abbrev no_texts : Texts
no_texts = record { send_text = λ e. []; receive_text = λ e. [] }

abbrev without_direction : Session
without_direction = record {
  user = [];
  remote_addr = [];
  command = codes "scp" ∷ codes "-r" ∷ [];
  public_key = none;
  pty = none;
  client_version = [];
}

abbrev waiting : World (Link ℕ ℕ)
waiting = record {
  events = [];
  now = 0;
  state = record {
    stream = record { rest = []; cuts = []; broken = false };
    room = 9;
    reading = 0;
    writing = 0;
  };
}

scp_middleware-NoDirection_example :
    scp_middleware no_texts none none (λ s. nothing) without_direction waiting ≡ (waiting, none)
unfolding bytes_eq
scp_middleware-NoDirection_example =
    scp_middleware-NoDirection no_texts none none (λ s. nothing) without_direction waiting
      (codes "-r" ∷ []) refl ((refl, refl), tt)
