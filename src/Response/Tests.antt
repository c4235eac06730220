-- ===== src/Response/Tests.antt =====
-- Responses at concrete values.
use iomessage.Prelude.{◌≡◌, refl, arith, [], ◌∷◌, ◌++◌, codes}
use iomessage.Text.{is_special}
use iomessage.Text.Escape.{escape}
use iomessage.Memory.Runs.{Runs}
use iomessage.Arena.Tests.{small_os}
use iomessage.Request.Types.{pos, negsuc, text_of}
use iomessage.Request.Params.Pairs.{differs}
use iomessage.Response.{Response, decimal, make_resp, make_raw_resp}
use iomessage.Response.Reads.{IsResponse, make_resp-IsResponse, IsRaw, make_raw_resp-IsRaw}

decimal_runs : decimal (negsuc 99) ≡ codes "-100"
unfolding decimal
decimal_runs = refl

make_resp-IsResponse_example :
    Runs
      (make_resp (7 ∷ 0 ∷ []) (pos 100) (codes "a{b") small_os)
      (IsResponse small_os (7 ∷ 0 ∷ []) (pos 100) (codes "a{b"))
make_resp-IsResponse_example =
    make_resp-IsResponse (7 ∷ 0 ∷ []) (pos 100) (codes "a{b") small_os (ground arith)

abbrev hello : Response
hello = record {
  address = 4096;
  status = pos 200;
  payload_block = 8192;
  payload = codes "hi\\}" ++ (0 ∷ []);
}

escaped : text_of hello.payload ≡ escape (codes "hi}")
unfolding is_special
escaped = refl

make_raw_resp-IsRaw_example :
    Runs (make_raw_resp hello small_os) (IsRaw small_os (pos 200) (codes "hi}"))
make_raw_resp-IsRaw_example =
    make_raw_resp-IsRaw hello (codes "hi}") small_os (omega arith) escaped (differs b'}' b'\\' refl)
