-- ===== src/Scp/Dispatch/SessionTests.antt =====
-- The scp middleware with two handlers in memory: a client that uploads a tree to "/lib", and one that
-- downloads it.
use wish.Base.{ℕ, Bytes, codes, List, [], ◌∷◌, some, none, true, false, bytes_eq, refl}
use wish.FilePath.{render}
use wish.Session.{Session, World, Handler, nothing}
use wish.Scp.Info.{copy_to_client as sending, copy_from_client as receiving, flag_r}
use wish.Scp.Info.Flags.{Other}
use wish.Scp.Entry.Encode.{encode_entries}
use wish.Scp.Memory.{Memory, memory_handler, memory_stores}
use wish.Scp.Dispatch.{Link, Texts, scp_middleware}
use wish.Scp.Dispatch.Sessions.{
  Asks, Uploaded, Downloaded, scp_middleware_uploads, scp_middleware_downloads,
}
use wish.Scp.RoundTrip.Tests.{
  books, library, library-Holds, lib-IsName, books-Placed, books-AllSendable, books-AllReadable,
  books_fit,
}

abbrev pub short_texts : Texts
short_texts = record { send_text = λ e. codes "send"; receive_text = λ e. codes "receive" }

abbrev pub running : List Bytes → Session
running command = record {
  user = codes "ann";
  remote_addr = [];
  command = command;
  public_key = none;
  pty = none;
  client_version = [];
}

lib_path : Other (codes "/lib")
unfolding bytes_eq
lib_path = record { not_f = refl; not_t = refl }

r_flag : Other flag_r
unfolding bytes_eq
r_flag = record { not_f = refl; not_t = refl }

uploading :
    Asks
      (running (codes "scp" ∷ codes "-r" ∷ codes "-t" ∷ codes "/lib" ∷ []))
      receiving
      (flag_r ∷ [])
      (render true (codes "lib" ∷ []))
unfolding bytes_eq
uploading = record { command = refl; flags = (r_flag, tt); no_flag = lib_path; not_r = refl }

downloading :
    Asks
      (running (codes "scp" ∷ codes "-r" ∷ codes "-f" ∷ codes "/lib" ∷ []))
      sending
      (flag_r ∷ [])
      (codes "/lib")
unfolding bytes_eq
downloading = record { command = refl; flags = (r_flag, tt); no_flag = lib_path; not_r = refl }

abbrev linked : World (Link ℕ Memory)
linked = record {
  events = [];
  now = 0;
  state = record {
    stream = record { rest = encode_entries books; cuts = 7 ∷ []; broken = false };
    room = 200;
    reading = 0;
    writing = [];
  };
}

abbrev no_more : {S : Type 0} → Handler S
no_more s = nothing

scp_middleware_uploads_example :
    Uploaded short_texts
      (some library)
      memory_handler
      memory_stores
      no_more
      books
      (render true (codes "lib" ∷ []))
      linked
      (scp_middleware short_texts
        (some library)
        (some memory_handler)
        no_more
        (running (codes "scp" ∷ codes "-r" ∷ codes "-t" ∷ codes "/lib" ∷ []))
        linked)
scp_middleware_uploads_example =
    scp_middleware_uploads short_texts (some library) memory_handler memory_stores no_more
      (running (codes "scp" ∷ codes "-r" ∷ codes "-t" ∷ codes "/lib" ∷ [])) (flag_r ∷ []) true
      (codes "lib" ∷ []) books (7 ∷ []) linked uploading refl (lib-IsName, tt) books-AllSendable

scp_middleware_downloads_example :
    Downloaded short_texts library (some memory_handler) no_more books linked (
      scp_middleware short_texts
        (some library)
        (some memory_handler)
        no_more
        (running (codes "scp" ∷ codes "-r" ∷ codes "-f" ∷ codes "/lib" ∷ []))
        linked)
unfolding bytes_eq
scp_middleware_downloads_example =
    scp_middleware_downloads short_texts library (some memory_handler) no_more
      (running (codes "scp" ∷ codes "-r" ∷ codes "-f" ∷ codes "/lib" ∷ [])) (flag_r ∷ [])
      (codes "/lib") (codes "/lib") true (codes "lib" ∷ []) books linked downloading library-Holds
      (lib-IsName, tt) books-Placed books-AllReadable books_fit
