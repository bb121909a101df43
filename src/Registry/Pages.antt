-- ===== src/Registry/Pages.antt =====
-- src/registry/registry.c: the pages that the registry prints.
use srepod.Prelude.{Bool, true, false, Option, none, some, [], ◌∷◌, ◌++◌, ◌>>=◌, CString, codes}
use srepod.Template.{Arguments, args_template, parse_template, loose}

-- The templates of the operator, each `none` where it cannot be opened, and the text of `ctime`.
pub record Pages : Type 0 where
  pub registry_html : Option CString
  pub header_html : Option CString
  pub footer_html : Option CString
  pub date : CString

-- `parse_template` on standard output; the result of one that cannot be opened is not looked at.
unfoldable pub page_part : Option CString → Arguments → Option CString
page_part none args = some []
page_part (some file) args = parse_template loose args file

abbrev pub page_head : CString
page_head = codes "Status: 200 - OK\r\nContent-type: text/html\r\n\r\n"

unfoldable pub cmd_registry : Pages → CString → CString → Option CString
cmd_registry pages url email = do
  body ← page_part pages.registry_html (args_template 4 (some url ∷ some email ∷ none ∷ []))
  some (page_head ++ body)

abbrev pub refresh_head : CString
refresh_head = codes "<head><meta http-equiv=\"Refresh\" Content=\"10;\"></head>"

abbrev header_args : Bool → Arguments
header_args true = some refresh_head ∷ none ∷ []
header_args false = none ∷ []

abbrev success_head : Bool → CString
success_head true =
    codes "<h1>Processing request</h1><p>This page will refresh in 10 seconds</p><p>["
success_head false = codes "<h1>Processing request</h1><p>["

-- `cmd_success` for a value of `dorefresh`, and the text that its arguments make.
unfoldable pub cmd_success : Pages → Bool → CString → Option CString
cmd_success pages dorefresh text = do
  header ← page_part pages.header_html (header_args dorefresh)
  footer ← page_part pages.footer_html (none ∷ [])
  some (
      page_head
      ++ (header ++ (success_head dorefresh ++ (pages.date ++ (codes "] " ++ (text ++ footer))))))

unfoldable pub cmd_error : Pages → CString → Option CString
cmd_error pages errmsg = do
  header ← page_part pages.header_html (none ∷ [])
  footer ← page_part pages.footer_html (none ∷ [])
  some (
      page_head
      ++ (header
          ++ (codes "<h1>Error</h1><p>["
              ++ (pages.date
                  ++ (codes "] Failed to process request - reason : " ++ (errmsg ++ footer))))))
