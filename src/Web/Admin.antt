-- ===== src/Web/Admin.antt =====
-- The administrator's requests in `handle_GET` of frontend/src/http.cc: the states of the servers,
-- the content of one, and the requests that stop and start one.
pub mod Status
use penn_mail_and_penn_drive.Base.{
  ℕ, Bool, true, false, Option, none, some, List, [], ◌∷◌, ◌++◌, if◌then◌else◌, ◌=?◌, nat_eq,
  list_eq, drop, Outcome, ok, blocked, stopped, ◌>>=◌,
}
use penn_mail_and_penn_drive.Base.Text.{
  Text, codes, after?, before_last?, before_last, after_last, has_text, split,
}
use penn_mail_and_penn_drive.Base.Maps.{Map, lookup}
use penn_mail_and_penn_drive.Frontend.Url.{url_decode, params_from_url}
use penn_mail_and_penn_drive.Drive.{login_failure}
use penn_mail_and_penn_drive.Accounts.{redirect_admin}

-- The coordinator, the load balancer and the storage servers behind their sockets.
pub record Nodes (T : Type 0) : Type 0 where
  pub bend_status : T → Outcome (Text × T)
  pub fend_status : T → Outcome (Text × T)
  pub bend_listcontent : Text → T → Outcome (Text × T)
  pub bend_shutdown : Text → T → Outcome T
  pub bend_restart : Text → T → Outcome T

-- What the page shows.
pub record Console : Type 0 where
  pub bservs : Text
  pub bstats : Text
  pub fservs : Text
  pub fstats : Text
  pub bend_content : Text
  pub bend_node : Text

abbrev pub no_console : Console
no_console = record {
  bservs = [];
  bstats = [];
  fservs = [];
  fstats = [];
  bend_content = [];
  bend_node = [];
}

-- A request is answered at once, or by a page.
pub data Reply : Type 0 where
  at_once : Text → Reply
  by_page : Console → Reply

-- `if (i < servers.size() - 1) append(", ")`
unfoldable pub comma : List Text → Text
comma [] = []
comma (s ∷ servers) = codes ", "

-- The loop, for one of its two texts: `part` of each server that has a hyphen, in quotes.
unfoldable pub listed : (Text → Text) → List Text → Text
unfolding before_last? comma
listed part [] = []
listed part (s ∷ servers) =
    let rest = listed part servers in
    elim (before_last? b'-' s) [
      | none ↦ rest
      | some _ ↦ b'"' ∷ (part s ++ b'"' ∷ (comma servers ++ rest))
    ]

-- The servers and their states, from an finish_request to `GET passwd null null`.
unfoldable pub servers_of : Text → Text × Text
unfolding split before_last after_last listed
servers_of status =
    let servers = drop 1 (split b' ' status) in
    (listed (before_last b'-') servers, listed (after_last b'-') servers)

-- `while (tmp.front() != '?') tmp.erase(0, 1);` goes on for ever where there is no question mark.
unfoldable pub from_mark : Text → Outcome Text
unfolding after?
from_mark path = elim (after? b'?' path) [ none ↦ blocked | some r ↦ ok (b'?' ∷ r) ]

-- /admin looks first.
unfoldable pub from_mark_or_all : Text → Text
unfolding after?
from_mark_or_all path = elim (after? b'?' path) [ none ↦ path | some r ↦ b'?' ∷ r ]

-- `params["password"] == ADMIN_PASSWD`
unfoldable pub is_admin : Map Text Text → Bool
is_admin params = elim (lookup (codes "password") params) [
  | none ↦ false
  | some password ↦ password =? codes "cis5050"
]

module _ {T : Type 0} (nodes : Nodes T) (vno path : Text) where
  -- /admincontent
  unfoldable pub admin_content : T → Outcome (Reply × T)
  unfolding from_mark url_decode params_from_url is_admin login_failure redirect_admin
  admin_content t = from_mark path >>= λ tmp. params_from_url (url_decode tmp) >>= λ params.
      if is_admin params
      then elim (lookup (codes "node") params) [
        | none ↦ ok (at_once (redirect_admin vno), t)
        | some node ↦ nodes.bend_listcontent node t >>= λ (content, u).
            ok (by_page (record no_console { bend_content = content; bend_node = node }), u)
      ]
      else ok (at_once (login_failure vno), t)

  -- /admin; an finish_request without `OK` ends the process.
  unfoldable pub admin : T → Outcome (Reply × T)
  unfolding from_mark_or_all url_decode params_from_url is_admin login_failure has_text servers_of
  admin t = params_from_url (url_decode (from_mark_or_all path)) >>= λ params.
      if is_admin params
      then (nodes.bend_status t >>= λ (bstatus, u). nodes.fend_status u >>= λ (fstatus, v).
          if has_text (codes "OK") bstatus
          then (if has_text (codes "OK") fstatus
              then ok (
                by_page (record no_console {
                  bservs = (servers_of bstatus).0;
                  bstats = (servers_of bstatus).1;
                  fservs = (servers_of fstatus).0;
                  fstats = (servers_of fstatus).1;
                }),
                v,
              )
              else stopped)
          else stopped)
      else ok (at_once (login_failure vno), t)

  -- /shutdown and /restart; `f` is the message to the coordinator.
  unfoldable pub admin_message : (Text → T → Outcome T) → T → Outcome (Reply × T)
  unfolding from_mark url_decode params_from_url is_admin login_failure redirect_admin
  admin_message f t = from_mark path >>= λ tmp. params_from_url (url_decode tmp) >>= λ params.
      if is_admin params
      then elim (lookup (codes "node") params) [
        | none ↦ ok (at_once (redirect_admin vno), t)
        | some node ↦ f node t >>= λ u. ok (at_once (redirect_admin vno), u)
      ]
      else ok (at_once (login_failure vno), t)

  unfoldable pub admin_shutdown : T → Outcome (Reply × T)
  unfolding admin_message
  admin_shutdown t = admin_message nodes.bend_shutdown t

  unfoldable pub admin_restart : T → Outcome (Reply × T)
  unfolding admin_message
  admin_restart t = admin_message nodes.bend_restart t
