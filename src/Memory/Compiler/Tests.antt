-- ===== src/Memory/Compiler/Tests.antt =====
-- Small briefings, and the theorems at them.
use astra_agent.Base.{◌≡◌, String, refl, Option, some, [], ◌∷◌}
use astra_agent.Base.Text.{rstrip, is_space, cut, take_chars, splitlines, is_break, is_crlf}
use astra_agent.Memory.Compiler.{BoundedContextCompiler, init, shorten}

shortened : shorten 10 "inspect  the parser" ≡ "inspect..."
unfolding shorten cut rstrip is_space take_chars
shortened = refl

broken : splitlines "a\r\nb\n\nc" ≡ "a" ∷ "b" ∷ "" ∷ "c" ∷ []
unfolding splitlines is_break is_crlf
broken = refl

abbrev compiler : BoundedContextCompiler
compiler = init " Be brief. " 1

abbrev echo : String → String → Option String
echo instruction content = some content
