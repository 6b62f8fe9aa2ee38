-- ===== src/Agent/Visibility/Commands/Sudo.antt =====
-- Commands under sudo (summarizeCommand of pkg/agent/visibility.go): the fuel of `summarize` suffices.
use Prim.Native.Char.{Char}
