-- ===== src/Lib.antt =====
-- AusweisApp2: the core of the eID client, from the messages of the card to the PACE workflow and
-- the JSON interface.
--
-- The program. A smart card is spoken to with APDUs (src/card/base). Commands and responses are plain
-- until the PACE protocol has set up keys, and are protected by secure messaging afterwards. A
-- reader with its own PACE support is instead given the data of PACE in one message, and its answer
-- holds an error code that wraps the status of the step that failed. The workflows
-- (src/workflows/base) are state machines on a shared context: the composite state of the PACE channel
-- selects a reader, connects the card, reads its retry counter, asks for the password that the
-- card wants and runs PACE, until the channel is established or the workflow is aborted. The change
-- of the PIN has this state inside its own machine. In an authentication the user grants the rights
-- that the service asks for, within those of its certificate, and the certificates are sent to the
-- card in a chain that begins at a root that the card knows. The JSON interface
-- (src/ui/json) tells a client which state a workflow is in, and takes the numbers that it asks for.
--
-- The files.
--   Prelude, Bytes: shared helpers; `QByteArray` and its fixed-width numbers.
--   Card/CommandApdu, Card/ResponseApdu: src/card/base/CommandApdu.cpp, ResponseApdu.cpp.
--   Card/ReturnCode: src/global/CardReturnCode.cpp, GlobalStatus.cpp. Card/LengthValue:
--   src/card/base/LengthValue.h. Card/PasswordId: src/card/base/SmartCardDefinitions.h.
--   Card/PaceInput, Card/PaceOutput: src/card/base/EstablishPaceChannel.cpp,
--   EstablishPaceChannelOutput.cpp, the messages of PC/SC part 10.
--   Card/Crypto, Card/SymmetricCipher, Card/SecureMessaging: src/card/base/pace/SymmetricCipher.cpp,
--   CipherMac.cpp, SecureMessaging.cpp and src/card/base/SecureMessagingResponse.cpp. A method that
--   changes the object returns its new state, so `SecureMessaging::decrypt` is
--   `decrypt : SecureMessaging → Bytes → Bytes × SecureMessaging`.
--   Card/SecureMessaging/Standard is the protection of TR-03110 as a card makes it, on its own.
--   Card/Commands: the builders of the commands, src/card/base/SelectBuilder.cpp and its siblings.
--   Card/Connection: src/card/base/CardConnectionWorker.cpp and the retry counter of Reader.cpp.
--   Card/Transmission: src/card/base/command/TransmitCommand.cpp, DidAuthenticateEAC1Command.cpp and
--   src/card/base/InputAPDUInfo.h.
--   Card/ECardApi: src/global/ECardApiResult.cpp, the tables between status codes and result codes.
--   Access/Rights, Access/Chat: src/card/base/asn1/AccessRoleAndRight.cpp, Chat.cpp. Access/Manager:
--   src/workflows/base/context/AccessRightManager.cpp, with its operators +=, -=, = and QByteArray as
--   `add`, `take_away`, `assign` and `effective_chat`. A set of rights is the test of what it contains.
--   Certificates/ChainBuilder: src/card/base/asn1/ChainBuilder.h. Certificates/Chain:
--   src/card/base/asn1/CVCertificateChain.cpp, CVCertificateChainBuilder.cpp, and the choice of a chain
--   in src/workflows/base/context/AuthContext.cpp.
--   Workflow/Reader, Workflow/Context: src/card/base/ReaderInfo.h and
--   src/workflows/base/context/WorkflowContext.cpp, AuthContext.cpp, ChangePinContext.cpp.
--   Workflow/States, Workflow/Establish: the states in src/workflows/base/states, one function for
--   each `run` and each handler. It returns the signal that is fired, or the card command that is
--   called, with the new context.
--   Workflow/Pace: src/workflows/base/states/CompositeStatePace.cpp and AbstractState.cpp; `step`
--   takes one event, and `run_events` a list of events in any order.
--   Workflow/ChangePin: src/workflows/base/controller/ChangePinController.cpp and its states, around
--   the machine of Workflow/Pace; `step_change_pin` takes one event.
--   Workflow/Authentication: the transitions of src/workflows/base/controller/AuthController.cpp and
--   SelfAuthController.cpp and of their composite states; `fire_signal` takes the signal of the
--   innermost state.
--   Json/Dispatcher, Json/Number: src/ui/json/MessageDispatcher.cpp, src/ui/json/messages/MsgContext.cpp
--   and the handlers on MsgHandlerEnterNumber.cpp there. A handler maps the context of the workflow
--   to the new one.
--   The child modules hold the proofs, and the modules called Examples runs on concrete values.
--
-- Bounds. A byte is a number below 256 and a fixed-width number is cut with `% 2 ^ w` where the
-- source cuts it. Loops are recursions on lists, but for two. `build_chain` of Certificates/ChainBuilder
-- has fuel, of which one more than the number of objects is enough, since every call has one object
-- more in its chain. `read_loop` of Card/Connection has fuel, since the source goes on as long as the
-- card lets it; for a file one turn for each 255 bytes and one more is enough. The counter of
-- vanished cards, an int in the source, has no upper bound.
--
-- Parameters. OpenSSL stands behind `Crypto`, a record of the calls that secure messaging makes, and
-- `IsLawful` lists the documented behaviour that the round trip uses: decryption undoes
-- encryption, whole blocks keep their length, a MAC has eight bytes, a decoder reads back the
-- object at the head of its input and none of another tag. The card behind its driver is the function `send` of
-- Card/Connection, and a certificate what the chains read of it. The reader manager and the clock stand behind `Environment`.
--
-- Not modelled. Assertions are empty, as in a release build. Signals that only refresh the user
-- interface, log output and texts are left out. The CCID form of the PACE messages rests on ASN.1
-- templates of OpenSSL, as do the encoding of a CHAT and of a certificate. `killWorkflow`, what the states of an authentication do with TLS and PAOS, remote
-- readers, the settings and the other user interfaces are not modelled, nor the JSON handlers that
-- format data or start a workflow.
pub mod Prelude
pub mod Bytes
pub mod Card
pub mod Workflow
pub mod Json
pub mod Access
pub mod Certificates
