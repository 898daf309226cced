-- ===== src/Notify/Plugins.antt =====
-- configs/checkmk/ntfy-notify.py and configs/checkmk/responder-notify.py as a whole: the files with the
-- secrets, one request, and the exit code, by which Checkmk tries again (1) or not.
use Prim.Native.String
use thearchivist.Prelude.{
  length, ℕ, ◌≡◌, refl, inl, inr, String, Bool, true, false, ◌&&◌, ◌||◌, not, List, [], ◌∷◌, leb,
  ltb, ◌==◌, arith, if◌then◌else◌, Bool-cases,
}
use thearchivist.Json.{Fields}
use thearchivist.Table.{any}
use thearchivist.Table.Any.{is_empty}
use thearchivist.Text.{strip}
use thearchivist.Notify.{
  Variables, Answer, status, http_error, http_unread, unreached, other_error, Push, ntfy_push,
  ntfy_exit, payload, responder_exit,
}

-- What reading a file comes to: its text, an OSError, or an error of the decoder, which no plugin
-- catches
pub data File : Type 0 where
  contents : String → File
  unreadable undecodable : File

pub record NtfyRequest : Type 0 where
  pub url : String
  pub authorization : String
  pub push : Push

pub record ResponderRequest : Type 0 where
  pub authorization : String
  pub payload : Fields

abbrev pub bearer : String → String
bearer secret = String.◌++◌ "Bearer " (strip secret)

module _ (vars : Variables) where
  -- `token` and `url` are the files. `builds` tells whether title and body can be encoded and Request()
  -- takes the URL, which is outside of the try; the title goes out as latin-1.
  module _ (as_latin : String → String) (builds : String → Push → Bool)
      (post : NtfyRequest → Answer) where
    abbrev pub ntfy_request : String → String → NtfyRequest
    ntfy_request token url =
        let push = ntfy_push vars in
        record {
          url = strip url;
          authorization = bearer token;
          push = record push { title = as_latin push.title };
        }

    unfoldable pub ntfy_main : File → File → List NtfyRequest × ℕ
    ntfy_main unreadable url = ([], 2)
    ntfy_main undecodable url = ([], 1)
    ntfy_main (contents token) unreadable = ([], 2)
    ntfy_main (contents token) undecodable = ([], 1)
    ntfy_main (contents token) (contents url) =
        if builds (strip url) (ntfy_push vars)
        then (ntfy_request token url ∷ [], ntfy_exit (post (ntfy_request token url)))
        else ([], 1)

  module _ (post : ResponderRequest → Answer) where
    abbrev pub responder_request : String → ResponderRequest
    responder_request secret = record { authorization = bearer secret; payload = payload vars }

    unfoldable pub responder_main : File → List ResponderRequest × ℕ
    responder_main unreadable = ([], 2)
    responder_main undecodable = ([], 1)
    responder_main (contents secret) =
        let request = responder_request secret in (request ∷ [], responder_exit (post request))

-- An answer that is neither a status nor a readable error of 400 to 499
abbrev pub may_help : Answer → Bool
may_help (status n) = false
may_help (http_error n) = not (leb 400 n && ltb n 500)
may_help _ = true

abbrev pub is_other_error : Answer → Bool
is_other_error other_error = true
is_other_error _ = false

abbrev pub is_unreadable : File → Bool
is_unreadable unreadable = true
is_unreadable _ = false

abbrev pub is_undecodable : File → Bool
is_undecodable undecodable = true
is_undecodable _ = false

abbrev pub has_contents : File → Bool
has_contents (contents s) = true
has_contents _ = false

-- The token's file, or behind a good one the URL's, raises an OSError.
abbrev pub is_locked_out : File → File → Bool
is_locked_out token url = is_unreadable token || (has_contents token && is_unreadable url)

-- Whether Request() can be made for the URL that a file holds
abbrev pub is_buildable : Variables → (String → Push → Bool) → File → Bool
is_buildable vars builds (contents url) = builds (strip url) (ntfy_push vars)
is_buildable vars builds _ = false

ntfy_exit-may_help : (a : Answer) → (ntfy_exit a == 1) ≡ may_help a
unfolding ntfy_exit
ntfy_exit-may_help (status n) = refl
ntfy_exit-may_help (http_error n) = ground arith
ntfy_exit-may_help (http_unread n) = refl
ntfy_exit-may_help unreached = refl
ntfy_exit-may_help other_error = refl

responder_exit-is_other_error : (a : Answer) → (responder_exit a == 1) ≡ is_other_error a
unfolding responder_exit
responder_exit-is_other_error (status n) = refl
responder_exit-is_other_error (http_error n) = refl
responder_exit-is_other_error (http_unread n) = refl
responder_exit-is_other_error unreached = refl
responder_exit-is_other_error other_error = refl

-- Each plugin sends one request at most: ntfy-notify.py if both files can be read and decoded and the
-- request can be built, responder-notify.py if its file can. ntfy-notify.py asks Checkmk for another
-- try, with exit code 1, exactly if it sent a request that came to neither a status nor a readable
-- HTTP error of 400 to 499, or if it sent none and no OSError of a file was the reason.
-- responder-notify.py does so exactly if the request raised something other than a URLError or an
-- OSError, or its file could not be decoded.
pub plugins_lem :
    (vars : Variables) (as_latin : String → String) (builds : String → Push → Bool)
    (post : NtfyRequest → Answer) (post' : ResponderRequest → Answer) (token url secret : File)
    → (((ntfy_main vars as_latin builds post token url).1 == 1) ≡ (
        let sent = (ntfy_main vars as_latin builds post token url).0 in
        any (λ r. may_help (post r)) sent || (is_empty sent && not (is_locked_out token url))))
      × (length (ntfy_main vars as_latin builds post token url).0
          ≡ (if has_contents token && is_buildable vars builds url then 1 else 0))
      × (((responder_main vars post' secret).1 == 1) ≡ (
          any (λ r. is_other_error (post' r)) (responder_main vars post' secret).0
          || is_undecodable secret))
      × (length (responder_main vars post' secret).0 ≡ (if has_contents secret then 1 else 0))
unfolding ntfy_main responder_main any
plugins_lem vars as_latin builds post post' token url secret =
    (ntfy_again token url, ntfy_sent token url, responder_again secret, responder_sent secret)
  where
    ntfy_again :
        (token url : File)
        → ((ntfy_main vars as_latin builds post token url).1 == 1) ≡ (
            let sent = (ntfy_main vars as_latin builds post token url).0 in
            any (λ r. may_help (post r)) sent || (is_empty sent && not (is_locked_out token url)))
    ntfy_again unreadable url = refl
    ntfy_again undecodable url = refl
    ntfy_again (contents token) unreadable = refl
    ntfy_again (contents token) undecodable = refl
    ntfy_again (contents token) (contents url) =
        elim (Bool-cases (builds (strip url) (ntfy_push vars))) [
          | inl built ↦
              rw (ntfy_main, built)
                (ground (
                  arith,
                  ntfy_exit-may_help (post (ntfy_request vars as_latin builds post token url)),
                ))
          | inr refused ↦ rw (ntfy_main, refused) refl
        ]

    ntfy_sent :
        (token url : File)
        → length (ntfy_main vars as_latin builds post token url).0
          ≡ (if has_contents token && is_buildable vars builds url then 1 else 0)
    ntfy_sent unreadable url = refl
    ntfy_sent undecodable url = refl
    ntfy_sent (contents token) unreadable = refl
    ntfy_sent (contents token) undecodable = refl
    ntfy_sent (contents token) (contents url) =
        elim (Bool-cases (builds (strip url) (ntfy_push vars))) [
          | inl built ↦ rw (ntfy_main, built) refl
          | inr refused ↦ rw (ntfy_main, refused) refl
        ]

    responder_again :
        (secret : File)
        → ((responder_main vars post' secret).1 == 1) ≡ (
            any (λ r. is_other_error (post' r)) (responder_main vars post' secret).0
            || is_undecodable secret)
    responder_again unreadable = refl
    responder_again undecodable = refl
    responder_again (contents secret) =
        ground (arith, responder_exit-is_other_error (post' (responder_request vars post' secret)))

    responder_sent :
        (secret : File)
        → length (responder_main vars post' secret).0 ≡ (if has_contents secret then 1 else 0)
    responder_sent unreadable = refl
    responder_sent undecodable = refl
    responder_sent (contents secret) = refl
