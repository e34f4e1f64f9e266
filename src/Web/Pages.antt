-- ===== src/Web/Pages.antt =====
-- The pages of frontend/src/http.cc: the template that a path names, what the administrator's pages
-- fill in, and the finish_request. `slurp` reads a file, empty where there is none.
use penn_mail_and_penn_drive.Base.{
  Bool, not, ◌&&◌, none, some, [], ◌∷◌, ◌++◌, if◌then◌else◌, ◌=?◌, nat_eq, list_eq, length, Outcome,
  ok, ◌>>=◌,
}
use penn_mail_and_penn_drive.Base.Text.{
  Text, codes, before_last?, before_last, has_text, split, to_string,
}
use penn_mail_and_penn_drive.Base.Maps.{Map, lookup}
use penn_mail_and_penn_drive.Store.{at}
use penn_mail_and_penn_drive.Frontend.Strings.{has_suffix, replace}
use penn_mail_and_penn_drive.Drive.{entry}
use penn_mail_and_penn_drive.Web.Admin.{Console}

-- `stemp.substr(0, stemp.find_last_of('/') + 1)`
unfoldable pub up_to_last : Text → Text
unfolding before_last?
up_to_last s = elim (before_last? b'/' s) [ none ↦ [] | some r ↦ r ++ b'/' ∷ [] ]

-- Beside the directory of the source file, which `__FILE__` names.
unfoldable pub templates_dir : Text → Text
unfolding before_last up_to_last
templates_dir file = up_to_last (before_last b'/' file) ++ codes "templates"

-- `split(path, '?')[0]` is undefined for an empty path.
unfoldable pub template_path : Text → Text → Outcome Text
unfolding templates_dir split has_suffix
template_path file path = at (split b'?' path) 0 >>= λ page.
    let stemp = templates_dir file ++ (page ++ (if page =? codes "/" then codes "index" else [])) in
    ok (if has_suffix stemp (codes ".html") then stemp else stemp ++ codes ".html")

abbrev pub is_empty : Text → Bool
is_empty s = s =? []

unfoldable pub is_overview : Console → Text → Bool
unfolding has_text
is_overview c content =
    has_text (codes "'<|BNODES|>'") content
    && (has_text (codes "'<|BSTATUS|>'") content
        && (has_text (codes "'<|FNODES|>'") content
            && (has_text (codes "'<|FSTATUS|>'") content
                && (has_text (codes "<|PASSWORD|>") content
                    && (not (is_empty c.bservs) && not (is_empty c.bstats))))))

unfoldable pub is_node_page : Console → Text → Bool
unfolding has_text
is_node_page c content =
    has_text (codes "<|BNODE|>") content
    && (has_text (codes "<|PASSWORD|>") content && not (is_empty c.bend_node))

abbrev pub with_password : Text → Text
with_password content = replace content (codes "<|PASSWORD|>") (codes "cis5050")

unfoldable pub fill : Console → Text → Text
unfolding is_overview is_node_page replace
fill c content =
    if is_overview c content
    then with_password (
        replace
          (replace
            (replace (replace content (codes "'<|BNODES|>'") c.bservs) (codes "'<|BSTATUS|>'")
              c.bstats)
            (codes "'<|FNODES|>'") c.fservs)
          (codes "'<|FSTATUS|>'") c.fstats)
    else if is_node_page c content
    then with_password (
        replace (replace content (codes "<|BCONTENT|>") c.bend_content) (codes "<|BNODE|>")
          c.bend_node)
    else content

-- The lines of the header. The content of 404.html is read into a variable of its own, and lost.
unfoldable pub page_header : Map Text Text → Text → Text
unfolding entry to_string
page_header params content =
    entry (codes "vno") params
    ++ ((if is_empty content then codes " 404 Not Found" else codes " 200 OK")
        ++ (codes "\r\nContent-type: text/html\r\n"
            ++ ((elim (lookup (codes "Host") params) as (λ _. Text) [
              | none ↦ []
              | some host ↦ codes "Access-Control-Allow-Origin: " ++ (host ++ codes "\r\n")
            ])
                ++ (codes "Access-Control-Allow-Credentials: true\r\n"
                    ++ ((if entry (codes "Connection") params =? codes "keep-alive"
                          then codes "Connection: keep-alive"
                          else codes "Connection: close")
                        ++ (codes "\r\nContent-length: "
                            ++ (to_string (length content) ++ codes "\r\n\r\n")))))))

-- The end of `handle_GET`: the page, without its content for HEAD, and whether the connection is
-- closed then.
unfoldable pub send_page :
    (Text → Text) → Text → Map Text Text → Console → Bool → Outcome (Text × Bool)
unfolding template_path fill page_header entry
send_page slurp file params console head =
    template_path file (entry (codes "path") params) >>= λ stemp.
    let content = fill console (slurp stemp) in
    ok (
      page_header params content ++ (if head then [] else content),
      entry (codes "Connection") params =? codes "keep-alive",
    )
